-- ===== src/Faults/Load.antt =====
-- lab/app/fault_state.py: the thread that loads the processor while its fault is active. Other requests
-- in between are not modelled.
use aiops_control_lab.Base.{
  ◌≡◌, refl, ap, ◌<◌, arith, ℕ, zero, suc, ◌+◌, ◌-◌, ◌*◌, ◌≤◌, Bool-cases, true, false, inl, inr,
  Option, none, some, lookup, leb, if◌then◌else◌,
}
use aiops_control_lab.Faults.{FaultState, active}

-- The last statement of `_run_cpu_load`, after which the thread is over.
unfoldable pub end_cpu_load : FaultState → FaultState
end_cpu_load f = record f { cpu_worker_running = false; workers = f.workers - 1 }

-- One round of load more, if the thread ends.
abbrev pub one_more : Option (ℕ × FaultState) → Option (ℕ × FaultState)
one_more none = none
one_more (some (rounds, f)) = some (suc rounds, f)

-- `_run_cpu_load`, for at most so many tests of the loop's condition; the n-th test reads the clock. It
-- gives the number of rounds of load, and the state at the end.
unfoldable pub run_cpu_load : (ℕ → ℕ) → ℕ → ℕ → FaultState → Option (ℕ × FaultState)
unfolding end_cpu_load
run_cpu_load clock zero n f = none
run_cpu_load clock (suc fuel) n f =
    let (on, g) = active "container_cpu_spike" (clock n) f in
    let rest = run_cpu_load clock fuel (suc n) g in
    if on then one_more rest else some (0, end_cpu_load g)

-- A round sleeps for 150 milliseconds.
abbrev pub Advances : (ℕ → ℕ) → Type 0
Advances clock = (n : ℕ) → clock n + 150_000 ≤ clock (suc n)

-- Every of so many tests, from the n-th on, comes before the deadline.
abbrev pub Early : (ℕ → ℕ) → ℕ → ℕ → ℕ → Type 0
Early clock deadline n zero = Unit
Early clock deadline n (suc rounds) = (clock n < deadline) × Early clock deadline (suc n) rounds

-- The thread is over: it has loaded the processor once for every test before the deadline, and none
-- after it; its flag is cleared, and there is one thread less.
pub record Ends (clock : ℕ → ℕ) (deadline n : ℕ) (f : FaultState) (result : Option (ℕ × FaultState))
    : Type 0 where
  pub rounds : ℕ
  pub last : FaultState
  pub returned : result ≡ some (rounds, last)
  pub early : Early clock deadline n rounds
  pub late : deadline ≤ clock (n + rounds)
  pub flag : last.cpu_worker_running ≡ false
  pub workers : last.workers ≡ f.workers - 1

ended :
    (clock : ℕ → ℕ) (deadline k n : ℕ) (f : FaultState)
    → lookup "container_cpu_spike" f.deadlines ≡ some deadline
    → leb deadline (clock n) ≡ true
    → Ends clock deadline n f (run_cpu_load clock (suc k) n f)
unfolding run_cpu_load end_cpu_load active
ended clock deadline k n f h over =
    let same : n + 0 ≡ n = omega arith in
    rw (h, active)
      (rw over (record {
        rounds = 0;
        last = _;
        returned = refl;
        early = tt;
        late = rw same (ground (arith, over));
        flag = refl;
        workers = refl;
      }))

goes_on :
    (clock : ℕ → ℕ) (deadline k n : ℕ) (f : FaultState)
    → lookup "container_cpu_spike" f.deadlines ≡ some deadline
    → leb deadline (clock n) ≡ false
    → run_cpu_load clock (suc k) n f ≡ one_more (run_cpu_load clock k (suc n) f)
unfolding run_cpu_load active
goes_on clock deadline k n f h runs = rw (h, active) (rw runs refl)

Ends-one_more :
    (clock : ℕ → ℕ) (deadline n : ℕ) (f : FaultState) (result : Option (ℕ × FaultState))
    → leb deadline (clock n) ≡ false
    → Ends clock deadline (suc n) f result
    → Ends clock deadline n f (one_more result)
Ends-one_more clock deadline n f result runs e =
    let same : n + suc e.rounds ≡ suc n + e.rounds = omega arith in
    record {
      rounds = suc e.rounds;
      last = e.last;
      returned = ap one_more e.returned;
      early = (ground (arith, runs), e.early);
      late = rw same e.late;
      flag = e.flag;
      workers = e.workers;
    }

-- If the deadline is at most k times 150 milliseconds after the first test and a round takes at least
-- that long, then k + 1 tests are enough for the thread to end. It loads the processor in one round for
-- each test that comes before the deadline, and ends at the first test that does not, with its flag
-- cleared and one thread less.
pub run_cpu_load-Ends :
    (clock : ℕ → ℕ) (deadline k n : ℕ) (f : FaultState)
    → Advances clock
    → lookup "container_cpu_spike" f.deadlines ≡ some deadline
    → deadline ≤ clock n + k * 150_000
    → Ends clock deadline n f (run_cpu_load clock (suc k) n f)
run_cpu_load-Ends clock deadline zero n f advances h bound =
    ended clock deadline zero n f h (ground (arith, bound))
run_cpu_load-Ends clock deadline (suc k) n f advances h bound =
    elim (Bool-cases (leb deadline (clock n))) [
      | inl over ↦ ended clock deadline (suc k) n f h over
      | inr runs ↦
          let step = advances n in
          rw (goes_on clock deadline (suc k) n f h runs) (
            Ends-one_more clock deadline n f _ runs (
              run_cpu_load-Ends clock deadline k (suc n) f advances h (omega (arith, bound, step))))
    ]
