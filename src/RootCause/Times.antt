-- ===== src/RootCause/Times.antt =====
-- The first and the last time of the anomalies.
use aiops_control_lab.Base.{
  ◌≡◌, refl, arith, ◌⊎◌, inl, inr, Bool-cases, ◌≤◌, min, max, leb, List, [], ◌∷◌, Has, here, there,
}
use aiops_control_lab.Domain.Models.{Time}
use aiops_control_lab.Domain.Monitoring.{ObservedAnomaly}
use aiops_control_lab.RootCause.{earliest, latest}

-- A time is the first (or last) one of the anomalies.
pub record IsFirst (all : List ObservedAnomaly) (time : Time) : Type 0 where
  pub anomaly : ObservedAnomaly
  pub observed : Has anomaly all
  pub at : time ≡ anomaly.occurred_at
  pub least : (b : ObservedAnomaly) → Has b all → time ≤ b.occurred_at

pub record IsLast (all : List ObservedAnomaly) (time : Time) : Type 0 where
  pub anomaly : ObservedAnomaly
  pub observed : Has anomaly all
  pub at : time ≡ anomaly.occurred_at
  pub greatest : (b : ObservedAnomaly) → Has b all → b.occurred_at ≤ time

earliest-least :
    (t : Time) (all : List ObservedAnomaly) (b : ObservedAnomaly)
    → Has b all
    → earliest t all ≤ b.occurred_at
unfolding earliest
earliest-least t [] b m = elim m [ ]
earliest-least t (a ∷ all) b here = omega arith
earliest-least t (a ∷ all) b (there m) = omega (arith, earliest-least t all b m)

latest-greatest :
    (t : Time) (all : List ObservedAnomaly) (b : ObservedAnomaly)
    → Has b all
    → b.occurred_at ≤ latest t all
unfolding latest
latest-greatest t [] b m = elim m [ ]
latest-greatest t (a ∷ all) b here = omega arith
latest-greatest t (a ∷ all) b (there m) = omega (arith, latest-greatest t all b m)

abbrev Observed : List ObservedAnomaly → Time → Time → Type 0
Observed all t time = (time ≡ t) ⊎ ((b : ObservedAnomaly) × Has b all × (time ≡ b.occurred_at))

Observed-there :
    (a : ObservedAnomaly) (all : List ObservedAnomaly) (t time : Time)
    → Observed all t time
    → Observed (a ∷ all) t time
Observed-there a all t time (inl same) = inl same
Observed-there a all t time (inr (b, m, same)) = inr (b, there m, same)

earliest-Observed : (t : Time) (all : List ObservedAnomaly) → Observed all t (earliest t all)
unfolding earliest
earliest-Observed t [] = inl refl
earliest-Observed t (a ∷ all) = elim (Bool-cases (leb a.occurred_at (earliest t all))) [
  | inl before ↦ inr (a, here, ground (arith, before))
  | inr behind ↦
      let rest : min a.occurred_at (earliest t all) ≡ earliest t all = ground (arith, behind) in
      rw rest (Observed-there a all t _ (earliest-Observed t all))
]

latest-Observed : (t : Time) (all : List ObservedAnomaly) → Observed all t (latest t all)
unfolding latest
latest-Observed t [] = inl refl
latest-Observed t (a ∷ all) = elim (Bool-cases (leb (latest t all) a.occurred_at)) [
  | inl behind ↦ inr (a, here, ground (arith, behind))
  | inr before ↦
      let rest : max a.occurred_at (latest t all) ≡ latest t all = ground (arith, before) in
      rw rest (Observed-there a all t _ (latest-Observed t all))
]

-- The times that the ranking takes for an anomaly are the first and the last of all.
pub earliest-IsFirst :
    (all : List ObservedAnomaly) (a : ObservedAnomaly)
    → Has a all
    → IsFirst all (earliest a.occurred_at all)
earliest-IsFirst all a m = elim (earliest-Observed a.occurred_at all) [
  | inl own ↦ record {
    anomaly = a;
    observed = m;
    at = own;
    least = earliest-least a.occurred_at all;
  }
  | inr (b, n, same) ↦ record {
    anomaly = b;
    observed = n;
    at = same;
    least = earliest-least a.occurred_at all;
  }
]

pub latest-IsLast :
    (all : List ObservedAnomaly) (a : ObservedAnomaly)
    → Has a all
    → IsLast all (latest a.occurred_at all)
latest-IsLast all a m = elim (latest-Observed a.occurred_at all) [
  | inl own ↦ record {
    anomaly = a;
    observed = m;
    at = own;
    greatest = latest-greatest a.occurred_at all;
  }
  | inr (b, n, same) ↦ record {
    anomaly = b;
    observed = n;
    at = same;
    greatest = latest-greatest a.occurred_at all;
  }
]
