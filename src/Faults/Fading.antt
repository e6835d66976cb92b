-- ===== src/Faults/Fading.antt =====
-- How long the fault of the answers stays in the state of the process, lab/app/fault_state.py.
use aiops_control_lab.Base.{
  ◌≡◌, refl, sym, subst, arith, ℕ, ◌+◌, ◌≤◌, Bool, Bool-cases, true, false, inl, inr, ◌⊎◌, none,
  some, lookup-remove_self, lookup-remove_ne, lookup, leb, ltb, ◌>>=◌, ◌>>◌, raise_if, Option-cases,
  ◌∙◌, http_unavailable,
}
use aiops_control_lab.App.{seconds}
use aiops_control_lab.Faults.{FaultState, active, active_until}
use aiops_control_lab.Faults.Application.{Process, delay, fault_active, apply_request_faults}

-- The fault of the answers has the deadline; or it has been dropped, which is not before the deadline,
-- at a time up to the bound.
abbrev pub Fading : ℕ → ℕ → FaultState → Type 0
Fading deadline bound f =
    (lookup "http_5xx" f.deadlines ≡ some deadline)
    ⊎ ((lookup "http_5xx" f.deadlines ≡ none) × (deadline ≤ bound))

active_keeps :
    (now : ℕ) (f : FaultState)
    → lookup "http_5xx" (active "request_latency" now f).1.deadlines ≡ lookup "http_5xx" f.deadlines
unfolding active
active_keeps now f = elim (Option-cases (lookup "request_latency" f.deadlines)) [
  | inl absent ↦ rw (absent, active) refl
  | inr (deadline, there_is) ↦ elim (Bool-cases (leb deadline now)) [
    | inl over ↦
        rw (there_is, active) (rw over (lookup-remove_ne "request_latency" "http_5xx" _ cc))
    | inr runs ↦ rw (there_is, active) (rw runs refl)
  ]
]

pub late-Fading :
    (deadline bound now : ℕ) (f : FaultState)
    → Fading deadline bound f
    → Fading deadline bound (active "request_latency" now f).1
late-Fading deadline bound now f (inl there_is) = inl (active_keeps now f ∙ there_is)
late-Fading deadline bound now f (inr (absent, past)) = inr (active_keeps now f ∙ absent, past)

active_absent :
    (now : ℕ) (f : FaultState)
    → lookup "http_5xx" f.deadlines ≡ none
    → active "http_5xx" now f ≡ (false, f)
unfolding active
active_absent now f absent = rw (absent, active) refl

active-Fading :
    (deadline bound now : ℕ) (f : FaultState)
    → now ≤ bound
    → Fading deadline bound f
    → Fading deadline bound (active "http_5xx" now f).1
unfolding active
active-Fading deadline bound now f in_time (inl there_is) = elim (Bool-cases (leb deadline now)) [
  | inl over ↦
      rw (there_is, active)
        (rw over (inr (lookup-remove_self "http_5xx" f.deadlines, ground (arith, over, in_time))))
  | inr runs ↦ rw (there_is, active) (rw runs (inl there_is))
]
active-Fading deadline bound now f in_time (inr (absent, past)) =
    rw (active_absent now f absent) (inr (absent, past))

-- The fault is found active exactly before its deadline.
pub active_before :
    (deadline now : ℕ) (f : FaultState)
    → Fading deadline now f
    → (active "http_5xx" now f).0 ≡ ltb now deadline
active_before deadline now f (inl there_is) = active_until "http_5xx" deadline f now there_is
active_before deadline now f (inr (absent, past)) =
    rw (active_absent now f absent) (ground (arith, past))

tested_faults :
    (later : ℕ) (s : Process)
    → ((fault_active "http_5xx" later >>= λ b. raise_if b http_unavailable) s).1.faults
      ≡ (active "http_5xx" later s.faults).1
unfolding fault_active
tested_faults later s = elim (Bool-cases (active "http_5xx" later s.faults).0) [
  | inl on ↦ rw on refl
  | inr off ↦ rw off refl
]

delayed_faults :
    (late : Bool) (later : ℕ) (s : Process)
    → ((delay late >> (fault_active "http_5xx" later >>= λ b. raise_if b http_unavailable))
        s).1.faults
      ≡ (active "http_5xx" later s.faults).1
delayed_faults true later s = tested_faults later (record s { slept = s.slept + seconds 2 })
delayed_faults false later s = tested_faults later s

-- The two tests drop the fault only if its deadline is over.
pub apply_request_faults-Fading :
    (deadline bound first later : ℕ) (s : Process)
    → later ≤ bound
    → Fading deadline bound s.faults
    → Fading deadline bound (apply_request_faults first later s).1.faults
unfolding apply_request_faults fault_active
apply_request_faults-Fading deadline bound first later s in_time h =
    let late = active "request_latency" first s.faults in
    subst (Fading deadline bound) (sym (delayed_faults late.0 later (record s { faults = late.1 })))
      (active-Fading deadline bound later late.1 in_time
        (late-Fading deadline bound first s.faults h))
