-- ===== src/MetricStore/Dedup.antt =====
-- Batches are taken at most once, in increasing order, and only registered metrics are kept.
use aiops_control_lab.Base.{
  ◌≡◌, refl, sym, ap, ◌∙◌, le→leb, ℕ, ◌≤◌, String, Bool, Bool-cases, true, false, not, ◌&&◌, ◌==◌,
  inl, inr, List, [], ◌∷◌, All, Option, some, lookup_pair, lookup_pair-insert_pair, eq_refl, eq_iff,
  leb, arith, if◌then◌else◌,
}
use aiops_control_lab.Domain.Monitoring.{LatestMetric}
use aiops_control_lab.App.{MetricStore}
use aiops_control_lab.MetricStore.{
  is_registered, same_series, put_metric, put_all, last_sequence, sequence_or_zero, accept_batch,
}

sequence_of_if :
    (b : Bool) (n : ℕ) (o : Option ℕ)
    → sequence_or_zero (if b then some n else o) ≡ (if b then n else sequence_or_zero o)
sequence_of_if true n o = refl
sequence_of_if false n o = refl

-- A batch is accepted exactly if its sequence is above the last one of its agent instance. Then the
-- last sequence of this instance is the batch's and that of every other is what it was; a batch that
-- is not accepted changes nothing.
pub accept_batch_cases :
    (node_id instance_id : String) (sequence : ℕ) (metrics : List LatestMetric) (m : MetricStore)
    (other_node other_instance : String)
    → let (accepted, m') = accept_batch node_id instance_id sequence metrics m in
      (accepted ≡ not (leb sequence (last_sequence node_id instance_id m)))
      × (m' ≡ (if accepted then m' else m))
      × (last_sequence other_node other_instance m' ≡ (
          if accepted && (node_id == other_node && instance_id == other_instance)
          then sequence
          else last_sequence other_node other_instance m))
unfolding accept_batch last_sequence
accept_batch_cases node_id instance_id sequence metrics m other_node other_instance =
    elim (Bool-cases (leb sequence (last_sequence node_id instance_id m))) [
      | inl old ↦ rw old (refl, refl, refl)
      | inr new ↦ rw new (
        refl,
        refl,
        rw
            (lookup_pair-insert_pair node_id instance_id other_node other_instance sequence
              m.sequences)
            (sequence_of_if (node_id == other_node && instance_id == other_instance) sequence
              (lookup_pair other_node other_instance m.sequences)),
      )
    ]

-- A call of `accept_batch`.
pub record Batch : Type 0 where
  pub node_id : String
  pub instance_id : String
  pub sequence : ℕ
  pub metrics : List LatestMetric

abbrev pub accept : Batch → MetricStore → Bool × MetricStore
accept b = accept_batch b.node_id b.instance_id b.sequence b.metrics

unfoldable pub after_batches : List Batch → MetricStore → MetricStore
after_batches [] m = m
after_batches (b ∷ bs) m = after_batches bs (accept b m).1

last_sequence-accept :
    (b : Batch) (m : MetricStore) (node_id instance_id : String)
    → last_sequence node_id instance_id m ≤ last_sequence node_id instance_id (accept b m).1
last_sequence-accept b m node_id instance_id = ground (
  arith,
  accept_batch_cases b.node_id b.instance_id b.sequence b.metrics m node_id instance_id,
  eq_iff b.node_id node_id,
  eq_iff b.instance_id instance_id,
)

last_sequence-after_batches :
    (bs : List Batch) (m : MetricStore) (node_id instance_id : String)
    → last_sequence node_id instance_id m ≤ last_sequence node_id instance_id (after_batches bs m)
unfolding after_batches
last_sequence-after_batches [] m node_id instance_id = omega arith
last_sequence-after_batches (b ∷ bs) m node_id instance_id = omega (
  arith,
  last_sequence-accept b m node_id instance_id,
  last_sequence-after_batches bs (accept b m).1 node_id instance_id,
)

last_sequence-accepted :
    (node_id instance_id : String) (k : ℕ) (metrics : List LatestMetric) (m m' : MetricStore)
    → accept_batch node_id instance_id k metrics m ≡ (true, m')
    → last_sequence node_id instance_id m' ≡ k
last_sequence-accepted node_id instance_id k metrics m m' h =
    let accepted : (accept_batch node_id instance_id k metrics m).0 ≡ true =
      ap (λ (r : Bool × MetricStore). r.0) h in
    let state : (accept_batch node_id instance_id k metrics m).1 ≡ m' =
      ap (λ (r : Bool × MetricStore). r.1) h in
    let known = (accept_batch_cases node_id instance_id k metrics m node_id instance_id).2 in
    sym (ap (last_sequence node_id instance_id) state)
    ∙ known
    ∙ cc (accepted, eq_refl node_id, eq_refl instance_id)

-- Once a batch of an agent instance was accepted, a batch of the same instance with the same or an
-- earlier sequence is refused and changes nothing, whatever batches of any instance came between.
pub accepted_once :
    (node_id instance_id : String) (k j : ℕ) (metrics resent : List LatestMetric)
    (m m' : MetricStore) (between : List Batch)
    → accept_batch node_id instance_id k metrics m ≡ (true, m')
    → j ≤ k
    → accept_batch node_id instance_id j resent (after_batches between m')
      ≡ (false, after_batches between m')
unfolding accept_batch
accepted_once node_id instance_id k j metrics resent m m' between first le =
    let last = last_sequence-accepted node_id instance_id k metrics m m' first in
    let later = last_sequence-after_batches between m' node_id instance_id in
    rw (le→leb j (last_sequence node_id instance_id (after_batches between m')) (omega arith))

-- Only registered metrics are stored.
abbrev pub IsRegistered : List LatestMetric → Type 0
IsRegistered = All (λ m. is_registered m.name ≡ true)

put_metric-IsRegistered :
    (m : LatestMetric) (ms : List LatestMetric)
    → is_registered m.name ≡ true
    → IsRegistered ms
    → IsRegistered (put_metric m ms)
unfolding put_metric
put_metric-IsRegistered m [] r h = (r, tt)
put_metric-IsRegistered m (x ∷ xs) r h = elim (Bool-cases (same_series x m)) [
  | inl b ↦ rw b (r, h.1)
  | inr b ↦ rw b (h.0, put_metric-IsRegistered m xs r h.1)
]

put_all-IsRegistered :
    (ms stored : List LatestMetric) → IsRegistered stored → IsRegistered (put_all ms stored)
unfolding put_all
put_all-IsRegistered [] stored h = h
put_all-IsRegistered (m ∷ ms) stored h = elim (Bool-cases (is_registered m.name)) [
  | inl b ↦ rw b (put_all-IsRegistered ms _ (put_metric-IsRegistered m stored b h))
  | inr b ↦ rw b (put_all-IsRegistered ms stored h)
]

accept-IsRegistered :
    (b : Batch) (m : MetricStore) → IsRegistered m.metrics → IsRegistered (accept b m).1.metrics
unfolding accept_batch
accept-IsRegistered b m h =
    elim (Bool-cases (leb b.sequence (last_sequence b.node_id b.instance_id m))) [
      | inl old ↦ rw old h
      | inr new ↦ rw new (put_all-IsRegistered b.metrics m.metrics h)
    ]

-- Whatever batches arrive, the store holds registered metrics only.
pub after_batches-IsRegistered :
    (bs : List Batch) (m : MetricStore)
    → IsRegistered m.metrics
    → IsRegistered (after_batches bs m).metrics
unfolding after_batches
after_batches-IsRegistered [] m h = h
after_batches-IsRegistered (b ∷ bs) m h =
    after_batches-IsRegistered bs (accept b m).1 (accept-IsRegistered b m h)
