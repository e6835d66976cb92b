-- ===== src/Faults/Outage.antt =====
-- lab/app/main.py: what a fault that is put on through the control endpoint does to the requests.
use aiops_control_lab.Base.{
  ◌≡◌, refl, sym, subst, arith, ap, ℕ, suc, ◌+◌, ◌≤◌, String, Bool, Bool-cases, true, false, ◌==◌,
  ◌≢◌, inl, inr, ◌⊎◌, some, List, [], ◌∷◌, All, continue, lookup, insert, lookup-insert_self,
  eq_iff, ltb, Result, ◌>>=◌, ◌>>◌, raise_if, ◌∙◌, ok, err, Error, http_unavailable,
  http_unauthorized, if◌then◌else◌,
}
use aiops_control_lab.App.{seconds}
use aiops_control_lab.Faults.{FaultState, is_supported, out_of_range, activate, active}
use aiops_control_lab.Faults.Application.{
  LabService, Process, delay, ask_redis, fault_active, apply_request_faults, read_ping, read_count,
  require_control_token, healthz, work, activate_fault, check_equal,
}
use aiops_control_lab.Faults.Fading.{
  Fading, late-Fading, active_before, apply_request_faults-Fading,
}

-- The faults let the request through exactly from the deadline on, and ask Redis nothing.
abbrev Gated : ℕ → ℕ → Process → Result (Unit {0}) × Process → Type 0
Gated deadline later s (r, t) =
    (r ≡ (if ltb later deadline then err http_unavailable else ok tt)) × (t.asked ≡ s.asked)

tested :
    (deadline later : ℕ) (s : Process)
    → Fading deadline later s.faults
    → Gated deadline later s
        ((fault_active "http_5xx" later >>= λ broken. raise_if broken http_unavailable) s)
unfolding fault_active
tested deadline later s h = elim (Bool-cases (ltb later deadline)) [
  | inl runs ↦ rw runs (rw (active_before deadline later s.faults h ∙ runs) (refl, refl))
  | inr over ↦ rw over (rw (active_before deadline later s.faults h ∙ over) (refl, refl))
]

delayed :
    (late : Bool) (deadline later : ℕ) (s : Process)
    → Fading deadline later s.faults
    → Gated deadline later s
        ((delay late >> (fault_active "http_5xx" later >>= λ b. raise_if b http_unavailable)) s)
delayed true deadline later s h = tested deadline later (record s { slept = s.slept + seconds 2 }) h
delayed false deadline later s h = tested deadline later s h

apply_request_faults-Gated :
    (deadline first later : ℕ) (s : Process)
    → Fading deadline later s.faults
    → Gated deadline later s (apply_request_faults first later s)
unfolding apply_request_faults fault_active
apply_request_faults-Gated deadline first later s h =
    delayed (active "request_latency" first s.faults).0 deadline later
      (record s { faults = (active "request_latency" first s.faults).1 })
      (late-Fading deadline later first s.faults h)

-- Before the deadline the answer is 503 and Redis is not asked; from then on Redis gives the answer.
unfoldable pub Served :
    {A : Type 0} → (ℕ → Result A) → ℕ → ℕ → Process → Result A × Process → Type 0
Served answer deadline later s (r, t) =
    (r ≡ (if ltb later deadline then err http_unavailable else answer s.asked))
    × (t.asked ≡ (if ltb later deadline then s.asked else suc s.asked))

ask-Served :
    {A : Type 0} (answer : ℕ → Result A) (deadline first later : ℕ) (s : Process)
    → Fading deadline later s.faults
    → Served answer deadline later s ((apply_request_faults first later >> ask_redis answer) s)
unfolding Served
ask-Served answer deadline first later s h =
    let (result, asked) = apply_request_faults-Gated deadline first later s h in
    elim (Bool-cases (ltb later deadline)) [
      | inl runs ↦
          let refused : (apply_request_faults first later s).0 ≡ err http_unavailable =
            rw result (rw runs refl) in
          rw runs (rw refused (refl, asked))
      | inr over ↦
          let passed : (apply_request_faults first later s).0 ≡ ok tt = rw result (rw over refl) in
          rw over (rw passed (ap answer asked, ap suc asked))
    ]

-- A request to the process, with the two readings of the clock that it takes.
pub data Request : Type 0 where
  for_work for_health : ℕ → ℕ → Request

-- The later of the two readings.
abbrev pub second_reading : Request → ℕ
second_reading (for_work first later) = later
second_reading (for_health first later) = later

-- The process after a request, whatever it is answered.
unfoldable pub handle : LabService → Request → Process → Process
handle v (for_work first later) s = (work v first later s).1
handle v (for_health first later) s = (healthz v first later s).1

unfoldable pub handle_all : LabService → List Request → Process → Process
handle_all v [] s = s
handle_all v (request ∷ requests) s = handle_all v requests (handle v request s)

ask_redis-faults :
    {A : Type 0} (answer : ℕ → Result A) (r : Result (Unit {0})) (t : Process)
    → (continue r (λ _. ask_redis answer) t).1.faults ≡ t.faults
ask_redis-faults answer (ok u) t = refl
ask_redis-faults answer (err e) t = refl

handle-Fading :
    (v : LabService) (deadline bound : ℕ) (request : Request) (s : Process)
    → second_reading request ≤ bound
    → Fading deadline bound s.faults
    → Fading deadline bound (handle v request s).faults
unfolding handle work healthz
handle-Fading v deadline bound (for_work first later) s in_time h =
    subst (Fading deadline bound)
      (sym (ask_redis-faults _ (apply_request_faults first later s).0 _))
      (apply_request_faults-Fading deadline bound first later s in_time h)
handle-Fading v deadline bound (for_health first later) s in_time h =
    subst (Fading deadline bound)
      (sym (ask_redis-faults _ (apply_request_faults first later s).0 _))
      (apply_request_faults-Fading deadline bound first later s in_time h)

handle_all-Fading :
    (v : LabService) (deadline bound : ℕ) (requests : List Request) (s : Process)
    → All (λ request. second_reading request ≤ bound) requests
    → Fading deadline bound s.faults
    → Fading deadline bound (handle_all v requests s).faults
unfolding handle_all
handle_all-Fading v deadline bound [] s in_time h = h
handle_all-Fading v deadline bound (request ∷ requests) s in_time h =
    handle_all-Fading v deadline bound requests (handle v request s) in_time.1
      (handle-Fading v deadline bound request s in_time.0 h)

-- The outcome of putting on the fault of the answers for some seconds, and how a request with two
-- readings of the clock is served after some other requests.
unfoldable pub Outage :
    LabService
    → String
    → ℕ
    → ℕ
    → Process
    → List Request
    → ℕ
    → ℕ
    → Result (String × ℕ) × Process
    → Type 0
Outage v token n now s requests first later (ok reply, t) =
    let u = handle_all v requests t in
    (v.control_token ≢ "")
    × (v.compare_digest token v.control_token ≡ ok true)
    × (n ≤ 120)
    × Served (λ k. read_count (v.incr k)) (now + seconds n) later u (work v first later u)
    × Served (λ k. read_ping (v.ping k)) (now + seconds n) later u (healthz v first later u)
Outage v token n now s requests first later (err e, t) = t ≡ s

check_equal_cases :
    (r : Result Bool) (s : Process)
    → ((check_equal r s ≡ (ok tt, s)) × (r ≡ ok true))
      ⊎ ((e : Error) × (check_equal r s ≡ (err e, s)))
check_equal_cases (ok true) s = inl (refl, refl)
check_equal_cases (ok false) s = inr (http_unauthorized, refl)
check_equal_cases (err e) s = inr (e, refl)

require_control_token_cases :
    (v : LabService) (token : String) (s : Process)
    → ((require_control_token v token s ≡ (ok tt, s))
        × (v.control_token ≢ "")
        × (v.compare_digest token v.control_token ≡ ok true))
      ⊎ ((e : Error) × (require_control_token v token s ≡ (err e, s)))
unfolding require_control_token
require_control_token_cases v token s = elim (Bool-cases (v.control_token == "")) [
  | inl empty ↦ rw empty (inr (http_unavailable, refl))
  | inr set ↦
      let is_set : v.control_token ≢ "" =
        λ e. absurd (ground (arith, set, eq_iff v.control_token "", e)) in
      elim (check_equal_cases (v.compare_digest token v.control_token) s) [
        | inl (passed, equal) ↦ rw set (inl (passed, is_set, equal))
        | inr refused ↦ rw set (inr refused)
      ]
]

supported_5xx : is_supported "http_5xx" ≡ true
unfolding is_supported
supported_5xx = refl

-- The process once the fault is on.
abbrev broken_until : ℕ → Process → Process
broken_until deadline s = record s {
  faults = record s.faults { deadlines = insert "http_5xx" deadline s.faults.deadlines };
}

activate_5xx :
    (n now : ℕ) (f : FaultState)
    → out_of_range n ≡ false
    → activate "http_5xx" n now f ≡ (
      ok (now + seconds n),
      record f { deadlines = insert "http_5xx" (now + seconds n) f.deadlines },
    )
unfolding activate
activate_5xx n now f fits = rw (supported_5xx, fits) refl

-- Putting on the fault of the answers is refused and changes nothing; or a token is configured and the
-- given one equals it, the time is at most 120 seconds, and then, after any sequence of requests for
-- work or health, every such request that tests the fault before the time is over is answered with 503
-- without asking Redis, and every one that tests it later gets Redis's answer. The clock does not run
-- backwards between the tests, and no other control request comes in between.
pub activate_fault-Outage :
    (v : LabService) (token : String) (n now : ℕ) (s : Process) (requests : List Request)
    (first later : ℕ)
    → All (λ request. second_reading request ≤ later) requests
    → Outage v token n now s requests first later (activate_fault v token "http_5xx" n now s)
unfolding activate_fault Outage work healthz
activate_fault-Outage v token n now s requests first later in_time =
    elim (Bool-cases (out_of_range n)) [
      | inl wrong ↦ rw wrong refl
      | inr fits ↦ elim (require_control_token_cases v token s) [
        | inr (e, refused) ↦ rw (fits, refused) refl
        | inl (passed, is_set, equal) ↦
            let deadline = now + seconds n in
            let t = broken_until deadline s in
            let start : lookup "http_5xx" t.faults.deadlines ≡ some deadline =
              lookup-insert_self "http_5xx" _ s.faults.deadlines in
            let u = handle_all v requests t in
            let h = handle_all-Fading v deadline later requests t in_time (inl start) in
            rw (fits, passed, supported_5xx, activate_5xx n now s.faults fits)
              (
                is_set,
                equal,
                ground (arith, fits),
                ask-Served _ deadline first later u h,
                ask-Served _ deadline first later u h,
              )
      ]
    ]
