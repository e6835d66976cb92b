-- ===== src/RootCause/Ranking.antt =====
-- What `rank` returns.
use mathlib.Core.List.{Perm}
use aiops_control_lab.Base.{
  ◌≡◌, refl, sym, ap, ◌∙◌, arith, ◌↔◌, inl, inr, Bool-cases, ℕ, zero, suc, ◌-◌, min, max, String,
  Bool, true, some, Option, List, [], ◌∷◌, ◌++◌, length, take, any, keep, is_empty, contains, ◌==◌,
  Has, here, there, sorted, sorted-Perm, sorted-Ordered, Ordered, length-sorted, length-take, drop,
  take-drop, nat_eq, ◌||◌, subst, Float, FloatOps, float_lt, float_lt_asym, float_max, float_min,
}
use aiops_control_lab.Domain.Models.{Time, Hypothesis}
use aiops_control_lab.Domain.Monitoring.{TopologyEdge, ObservedAnomaly}
use aiops_control_lab.RootCause.Dependents.{dependents_of}
use aiops_control_lab.RootCause.{
  earliest, latest, explained, total_seconds, severity_score, temporal_score, propagation_score,
  hypothesis, hypotheses, rank,
}
use aiops_control_lab.RootCause.Times.{IsFirst, IsLast, earliest-IsFirst, latest-IsLast}
use aiops_control_lab.RootCause.Reach.{Affected, reachable_dependents-Affected}

module _ (o : FloatOps) (edges : List TopologyEdge) (all : List ObservedAnomaly) where
  -- `timedelta.total_seconds()` of the time between two moments
  abbrev seconds_between : Time → Time → Float
  seconds_between from to = o.quotient (to - from) 1_000_000

  -- How strong an anomaly is: a fifth of its score, between 0 and 1.
  abbrev strength : ObservedAnomaly → Float
  strength a = float_min (o.div (float_max a.score 0) 0x4014_0000_0000_0000) 0x3ff0_0000_0000_0000

  -- How early it is: 1 for the first moment and 0 for the last one.
  abbrev lead : Time → Time → ObservedAnomaly → Float
  lead from to a =
      let share =
        o.div (seconds_between from a.occurred_at)
          (float_max (seconds_between from to) 0x3ff0_0000_0000_0000) in
      o.sub 0x3ff0_0000_0000_0000 (float_min (float_max share 0) 0x3ff0_0000_0000_0000)

  -- How many of the other anomalies it explains.
  abbrev coverage : List String → Float
  coverage found =
      o.quotient (length (keep (λ x. any (λ (b : ObservedAnomaly). b.asset_id == x) all) found))
        (max (length all - 1) 1)

  -- The assessment of an anomaly: its score is 0.45, 0.30 and 0.25 parts of its strength, its lead
  -- among all anomalies, and its coverage by the assets that depend on its own.
  pub record Assesses (anomaly : ObservedAnomaly) (h : Hypothesis) : Type 0 where
    pub asset : h.asset_id ≡ anomaly.asset_id
    pub evidence : h.evidence_ids ≡ anomaly.evidence_id ∷ []
    pub found : List String
    pub affected : (v : String) → (contains v found ≡ true) ↔ Affected edges anomaly.asset_id v
    pub from : Time
    pub to : Time
    pub is_first : IsFirst all from
    pub is_last : IsLast all to
    pub score :
        h.score
        ≡ o.add
            (o.add
              (o.mul 0x3fdc_cccc_cccc_cccd (strength anomaly))
              (o.mul 0x3fd3_3333_3333_3333 (lead from to anomaly)))
            (o.mul 0x3fd0_0000_0000_0000 (coverage found))

  -- One hypothesis for each anomaly, in order.
  pub data Assessments : List ObservedAnomaly → List Hypothesis → Type 0 where
    finished : Assessments [] []
    assessed :
        {a : ObservedAnomaly} {anomalies : List ObservedAnomaly} {h : Hypothesis}
        {hs : List Hypothesis}
        → Assesses a h
        → Assessments anomalies hs
        → Assessments (a ∷ anomalies) (h ∷ hs)

  hypothesis-Assesses :
      (a : ObservedAnomaly) (found : List String)
      → Has a all
      → ((v : String) → (contains v found ≡ true) ↔ Affected edges a.asset_id v)
      → Assesses a (hypothesis o all a found)
  unfolding hypothesis severity_score temporal_score propagation_score explained total_seconds
  hypothesis-Assesses a found m affected = record {
    asset = refl;
    evidence = refl;
    found = found;
    affected = affected;
    from = earliest a.occurred_at all;
    to = latest a.occurred_at all;
    is_first = earliest-IsFirst all a m;
    is_last = latest-IsLast all a m;
    score = refl;
  }

  hypotheses_return :
      (anomalies : List ObservedAnomaly)
      → ((a : ObservedAnomaly) → Has a anomalies → Has a all)
      → (hs : List Hypothesis) × (hypotheses o (dependents_of edges) all anomalies ≡ some hs)
        × (length hs ≡ length anomalies)
        × Assessments anomalies hs
  unfolding hypotheses
  hypotheses_return [] within = ([], refl, refl, finished)
  hypotheses_return (a ∷ anomalies) within =
      let (found, ends, affected) = reachable_dependents-Affected edges a.asset_id in
      let (hs, returned, long, fit) = hypotheses_return anomalies (λ b m. within b (there m)) in
      (
        hypothesis o all a found ∷ hs,
        rw (ends, returned) refl,
        ap suc long,
        assessed (hypothesis-Assesses a found (within a here) affected) fit,
      )

abbrev pub higher : Hypothesis → Hypothesis → Bool
higher a b = float_lt b.score a.score

nothing_left :
    (xs : List ObservedAnomaly) (n : ℕ) (hs : List Hypothesis)
    → length hs ≡ length xs
    → (is_empty xs || nat_eq n 0) ≡ true
    → [] ≡ take n (sorted higher hs)
nothing_left xs zero hs long idle = refl
nothing_left [] (suc n) [] long idle = refl
nothing_left [] (suc n) (h ∷ hs) long idle = absurd (omega (arith, long))
nothing_left (a ∷ xs) (suc n) hs long idle = absurd (ground (arith, idle))

-- What the ranking returns, among the hypotheses for all anomalies.
pub record Ranked (o : FloatOps) (edges : List TopologyEdge) (anomalies : List ObservedAnomaly)
    (limit : ℕ) (result : Option (List Hypothesis)) : Type 0 where
  pub hs : List Hypothesis
  pub rest : List Hypothesis
  pub scored : List Hypothesis
  pub returned : result ≡ some hs
  pub fit : Assessments o edges anomalies anomalies scored
  pub kept : Perm (hs ++ rest) scored
  pub descends : Ordered higher (hs ++ rest)
  pub long : length hs ≡ min limit (length anomalies)

-- Each anomaly gets one hypothesis, with its score; if these are put in order, so that none has a
-- higher score than the one before it, then the ranking returns the first `limit` of them, or all, if
-- there are fewer.
pub rank_returns :
    (o : FloatOps) (edges : List TopologyEdge) (anomalies : List ObservedAnomaly) (limit : ℕ)
    → Ranked o edges anomalies limit (rank o edges anomalies limit)
unfolding rank
rank_returns o edges anomalies limit =
    let (hs, returned, long, fit) = hypotheses_return o edges anomalies anomalies (λ a m. m) in
    let ordered = sorted higher hs in
    let first_ones : rank o edges anomalies limit ≡ some (take limit ordered) =
      elim (Bool-cases (is_empty anomalies || nat_eq limit 0)) [
        | inl idle ↦ rw idle (ap some (nothing_left anomalies limit hs long idle))
        | inr busy ↦ rw (busy, returned) refl
      ] in
    record {
      hs = take limit ordered;
      rest = drop limit ordered;
      scored = hs;
      returned = first_ones;
      fit = fit;
      kept = subst (λ l. Perm l hs) (sym (take-drop limit ordered)) (sorted-Perm higher hs);
      descends =
          subst (Ordered higher) (sym (take-drop limit ordered))
            (sorted-Ordered higher (λ a b. float_lt_asym b.score a.score) hs);
      long = length-take limit ordered ∙ ap (min limit) (length-sorted higher hs ∙ long);
    }
