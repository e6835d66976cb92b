-- ===== src/Faults.antt =====
-- lab/app/fault_state.py: the faults that are injected into the laboratory and end by themselves. A
-- reading of the monotonic clock is a number of microseconds.
pub mod Application
pub mod Fading
pub mod Outage
pub mod Load
use aiops_control_lab.Base.{
  ◌≡◌, ℕ, suc, ◌+◌, ◌≤◌, ◌<◌, String, Bool, Bool-cases, true, false, not, ◌&&◌, ◌||◌, ◌==◌, inl,
  inr, none, some, [], ◌∷◌, Dict, lookup, insert, remove, lookup-insert_self, contains, leb, ltb,
  arith, Result, ok, err, value_error, if◌then◌else◌,
}
use aiops_control_lab.App.{seconds}

pub record FaultState : Type 0 where
  pub deadlines : Dict ℕ
  pub cpu_worker_running : Bool
  -- how many threads of `_run_cpu_load` there are
  pub workers : ℕ

-- `scenario not in SUPPORTED_APPLICATION_FAULTS`
unfoldable pub is_supported : String → Bool
is_supported scenario =
    contains scenario ("container_cpu_spike" ∷ "request_latency" ∷ "http_5xx" ∷ [])

abbrev pub out_of_range : ℕ → Bool
out_of_range duration_seconds = ltb duration_seconds 1 || ltb 120 duration_seconds

abbrev pub starts_cpu : String → FaultState → Bool
starts_cpu scenario f = scenario == "container_cpu_spike" && not f.cpu_worker_running

unfoldable pub activate : String → ℕ → ℕ → FaultState → Result ℕ × FaultState
activate scenario duration_seconds now f =
    if not (is_supported scenario)
    then (err value_error, f)
    else if out_of_range duration_seconds
    then (err value_error, f)
    else (
      ok (now + seconds duration_seconds),
      record {
        deadlines = insert scenario (now + seconds duration_seconds) f.deadlines;
        cpu_worker_running = starts_cpu scenario f || f.cpu_worker_running;
        workers = if starts_cpu scenario f then suc f.workers else f.workers;
      },
    )

unfoldable pub clear : String → FaultState → FaultState
clear scenario f = record f { deadlines = remove scenario f.deadlines }

unfoldable pub active : String → ℕ → FaultState → Bool × FaultState
active scenario now f = elim (lookup scenario f.deadlines) [
  | none ↦ (false, f)
  | some deadline ↦
      if leb deadline now
      then (false, record f { deadlines = remove scenario f.deadlines })
      else (true, f)
]

-- `Bounded scenario now out`: if `activate` returns, then it returns a deadline at most two minutes
-- away, and at every time the fault is active exactly before it.
unfoldable Bounded : String → ℕ → Result ℕ × FaultState → Type 0
Bounded scenario now (ok deadline, f) =
    (deadline ≤ now + seconds 120)
    × (now < deadline)
    × ((t : ℕ) → (active scenario t f).0 ≡ ltb t deadline)
Bounded scenario now (err e, f) = Unit

pub active_until :
    (scenario : String) (deadline : ℕ) (f : FaultState) (t : ℕ)
    → lookup scenario f.deadlines ≡ some deadline
    → (active scenario t f).0 ≡ ltb t deadline
unfolding active
active_until scenario deadline f t h = elim (Bool-cases (leb deadline t)) [
  | inl over ↦ rw (h, active) (rw over (ground (arith, over)))
  | inr runs ↦ rw (h, active) (rw runs (ground (arith, runs)))
]

in_range : (n : ℕ) → out_of_range n ≡ false → (seconds n ≤ seconds 120) × (1 ≤ seconds n)
in_range n h = (ground (arith, h), ground (arith, h))

-- A fault that is activated ends by itself: its deadline is later than now and at most 120 seconds
-- away, and it is active at exactly the times before it.
activate-Bounded :
    (scenario : String) (duration_seconds now : ℕ) (f : FaultState)
    → Bounded scenario now (activate scenario duration_seconds now f)
unfolding activate Bounded
activate-Bounded scenario duration_seconds now f = elim (Bool-cases (is_supported scenario)) [
  | inr unknown ↦ rw unknown tt
  | inl known ↦ elim (Bool-cases (out_of_range duration_seconds)) [
    | inl wrong ↦ rw (known, wrong) tt
    | inr fits ↦
        let (most, least) = in_range duration_seconds fits in
        rw (known, fits)
          (
            omega (arith, most, least),
            omega (arith, most, least),
            λ t. active_until scenario _ _ t (lookup-insert_self scenario _ f.deadlines),
          )
  ]
]

-- The number of threads is one while the flag is set, and else zero.
unfoldable pub HasOneWorker : FaultState → Type 0
HasOneWorker f = f.workers ≡ (if f.cpu_worker_running then 1 else 0)

one_worker :
    (starts runs : Bool) (workers : ℕ)
    → workers ≡ (if runs then 1 else 0)
    → (if starts && not runs then suc workers else workers)
      ≡ (if starts && not runs || runs then 1 else 0)
one_worker starts runs workers h = ground (arith, h)

-- If there is one thread of the processor's load exactly while the flag says so, and else none, then
-- this is so after `activate` too: it never starts a second thread.
activate-HasOneWorker :
    (scenario : String) (duration_seconds now : ℕ) (f : FaultState)
    → HasOneWorker f
    → HasOneWorker (activate scenario duration_seconds now f).1
unfolding activate HasOneWorker
activate-HasOneWorker scenario duration_seconds now f h =
    elim (Bool-cases (is_supported scenario)) [
      | inr unknown ↦ rw unknown h
      | inl known ↦ elim (Bool-cases (out_of_range duration_seconds)) [
        | inl wrong ↦ rw (known, wrong) h
        | inr fits ↦
            rw (known, fits)
              (one_worker (scenario == "container_cpu_spike") f.cpu_worker_running f.workers h)
      ]
    ]
