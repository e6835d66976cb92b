-- ===== src/Laboratory/Keeping.antt =====
-- What holds of the laboratory before an injection or a reset and survives each registered request
-- holds after it, too.
use aiops_control_lab.Base.{
  ◌≡◌, refl, arith, inl, inr, Bool-cases, Option-cases, eq_iff, ℕ, String, Bool, true, false, not,
  ◌≤◌, Option, none, some, List, [], ◌∷◌, lookup, lookup-Has, contains, contains-Has, values, Exec,
  Result, ok, err, pure, raise, lift, ◌>>=◌, ◌>>◌, bind_rule, starts_with, runtime_error,
  value_error, if◌then◌else◌,
}
use Prim.Native.String.{◌++◌}
use aiops_control_lab.App.{App, new_id, utc_now, later, seconds}
use aiops_control_lab.Signing.{Value, Payload, text, mapping, other, calculate_signature}
use aiops_control_lab.Signing.Verified.{sign_task_payload_cases}
use aiops_control_lab.Laboratory.Injector.{
  Request, task, set_fault, clear_fault, Lab, Injector, container_scenarios, application_scenarios,
  in_app, without, ask, unsigned_payload, sign, send, set_application_fault,
  clear_application_fault, stop_container, start_fault, duration_of, inject, recover_container,
  reset,
}

abbrev pub is_one_of : List String → Option Value → Bool
is_one_of names (some (text t)) = contains t names
is_one_of names (some (mapping d)) = false
is_one_of names (some other) = false
is_one_of names none = false

abbrev pub fault_actions : List String
fault_actions = "stop_container" ∷ "health_check" ∷ "restart_container" ∷ []

-- A task stops, checks or restarts a container of a registered scenario, and it carries the signature
-- that is calculated from it.
pub record IsAllowed (i : Injector) (payload : Payload) : Type 0 where
  pub action : is_one_of fault_actions (lookup "action_type" payload) ≡ true
  pub target : is_one_of (values container_scenarios) (lookup "target" payload) ≡ true
  pub signature : String
  pub verified : calculate_signature i.platform.digest i.hmac payload i.shared_secret ≡ ok signature
  pub carried : lookup "signature" payload ≡ some (text signature)

-- A fault of the application is a registered one, and set for two minutes at most.
abbrev pub Registered : Injector → Request → Type 0
Registered i (task payload) = IsAllowed i payload
Registered i (set_fault scenario n) = (contains scenario application_scenarios ≡ true) × (n ≤ 120)
Registered i (clear_fault scenario) = contains scenario application_scenarios ≡ true

-- A predicate that neither changes elsewhere nor registered requests end.
pub record IsStable (i : Injector) (P : Lab → Type 0) : Type 0 where
  pub on_app : (s : Lab) (app : App) → P s → P (record s { app = app })
  pub on_sent :
      (s : Lab) (request : Request)
      → Registered i request
      → P s
      → P (record s { sent = request ∷ s.sent })

pub record Keeps {A : Type 0} (P : Lab → Type 0) (m : Exec Lab A) : Type 0 where
  pub keeps : (s : Lab) → P s → P (m s).1

duration_of-le : (scenario : String) → duration_of scenario ≤ 120
duration_of-le scenario = ground (arith, eq_iff scenario "container_cpu_spike")

module _ (i : Injector) (P : Lab → Type 0) (stable : IsStable i P) where
  pub bind-Keeps :
      {A B : Type 0} (m : Exec Lab A) (f : A → Exec Lab B)
      → Keeps P m
      → ((a : A) → Keeps P (f a))
      → Keeps P (m >>= f)
  bind-Keeps m f first rest = record {
    keeps = λ s h.
        bind_rule (λ out. P out.1) (λ out. P out.1) f (m s) (first.keeps s h)
          (λ a t k. (rest a).keeps t k) (λ e t k. k);
  }

  pub pure-Keeps : {A : Type 0} (a : A) → Keeps P (pure a)
  pure-Keeps a = record { keeps = λ s h. h }

  pub raise-Keeps : {A : Type 0} (r : Result A) → Keeps P (lift r)
  raise-Keeps r = record { keeps = λ s h. h }

  pub if-Keeps :
      {A : Type 0} (b : Bool) (m n : Exec Lab A)
      → Keeps P m
      → Keeps P n
      → Keeps P (if b then m else n)
  if-Keeps true m n hm hn = hm
  if-Keeps false m n hm hn = hn

  pub in_app-Keeps : {A : Type 0} (m : Exec App A) → Keeps P (in_app m)
  in_app-Keeps m = record { keeps = λ s h. stable.on_app s (m s.app).1 h }

  ask-Keeps : (request : Request) → Registered i request → Keeps P (ask i request)
  unfolding ask
  ask-Keeps request r = record { keeps = λ s h. stable.on_sent s request r h }

  module _ (action target : String) (known : contains action fault_actions ≡ true)
      (ours : contains target (values container_scenarios) ≡ true) where
    sign-ask-Keeps :
        (id key : String) (expires_at : ℕ)
        → Keeps P (
            sign i (unsigned_payload i id action target key expires_at) >>= λ payload.
            ask i (task payload))
    unfolding sign ask lookup
    sign-ask-Keeps id key expires_at = record {
      keeps = λ s h.
          let p = unsigned_payload i id action target key expires_at in
          elim (sign_task_payload_cases i.platform.digest i.hmac (i.token_hex s.app.drawn) p
            i.shared_secret) [
              | inr (unready, e) ↦ rw e h
              | inl (ready, signed, e, done) ↦ rw e (
                  stable.on_sent s (task signed)
                    (record {
                      action = rw (done.fields "action_type") known;
                      target = rw (done.fields "target") ours;
                      signature = done.signature;
                      verified = done.verified;
                      carried = done.fields "signature";
                    })
                    h)
            ];
    }

    send-Keeps : (key : String) → Keeps P (send i action target key)
    unfolding send
    send-Keeps key = bind-Keeps (in_app (utc_now i.platform)) _ (in_app-Keeps _) λ now.
        bind-Keeps (lift (later now (seconds 60))) _ (raise-Keeps _) λ expires_at.
          bind-Keeps (in_app (new_id i.platform "fault_job")) _ (in_app-Keeps _)
            λ id. sign-ask-Keeps id key expires_at

  stop_container-Keeps :
      (target : String)
      → contains target (values container_scenarios) ≡ true
      → Keeps P (stop_container i target)
  unfolding stop_container
  stop_container-Keeps target ours =
      bind-Keeps (in_app (new_id i.platform "fault")) _ (in_app-Keeps _) λ fault.
        bind-Keeps (send i "stop_container" target ("inject:" ++ fault)) _
          (send-Keeps "stop_container" target refl ours ("inject:" ++ fault)) (stopped target)
    where
      stopped :
          (target : String) (succeeded : Bool)
          → Keeps P
              (if not succeeded then raise runtime_error else pure (some ("container:" ++ target)))
      stopped target true = pure-Keeps _
      stopped target false = raise-Keeps (err runtime_error)

  start_fault-Keeps :
      (scenario : String)
      → contains scenario application_scenarios ≡ true
      → Keeps P (start_fault i scenario)
  unfolding start_fault set_application_fault
  start_fault-Keeps scenario known =
      bind-Keeps (ask i (set_fault scenario (duration_of scenario))) _
        (ask-Keeps (set_fault scenario (duration_of scenario)) (known, duration_of-le scenario))
        (λ done. pure-Keeps _)

  pub inject-Keeps : (scenario : String) → Keeps P (inject i scenario)
  unfolding inject
  inject-Keeps scenario = elim (Option-cases (lookup scenario container_scenarios)) [
    | inr (target, e) ↦
        rw (e, inject)
          (stop_container-Keeps target
            (contains-Has (lookup-Has scenario target container_scenarios e)))
    | inl e ↦ elim (Bool-cases (contains scenario application_scenarios)) [
      | inl known ↦ rw (e, known, inject) (start_fault-Keeps scenario known)
      | inr unknown ↦ rw (e, unknown, inject) (pure-Keeps none)
    ]
  ]

  recover_container-Keeps :
      (target : String)
      → contains target (values container_scenarios) ≡ true
      → Keeps P (recover_container i target)
  unfolding recover_container
  recover_container-Keeps target ours =
      bind-Keeps (in_app (new_id i.platform "fault")) _ (in_app-Keeps _) λ check.
        bind-Keeps (send i "health_check" target ("reset-check:" ++ check)) _
          (send-Keeps "health_check" target refl ours ("reset-check:" ++ check)) (checked)
    where
      checked :
          (healthy : Bool)
          → Keeps P (
              if healthy
              then pure tt
              else in_app (new_id i.platform "fault") >>= λ fault.
                  send i "restart_container" target ("reset:" ++ fault) >> pure tt)
      checked true = pure-Keeps tt
      checked false = bind-Keeps (in_app (new_id i.platform "fault")) _ (in_app-Keeps _) λ fault.
          bind-Keeps (send i "restart_container" target ("reset:" ++ fault)) _
            (send-Keeps "restart_container" target refl ours ("reset:" ++ fault))
            (λ sent. pure-Keeps tt)

  pub reset-Keeps : (target : String) → Keeps P (reset i target)
  unfolding reset clear_application_fault
  reset-Keeps target = elim (Bool-cases (starts_with target "application:")) [
    | inl app ↦ elim (Bool-cases (contains (without "application:" target) application_scenarios)) [
      | inl known ↦
          rw (app, known)
            (bind-Keeps (ask i (clear_fault (without "application:" target))) _
              (ask-Keeps (clear_fault (without "application:" target)) known)
              (λ done. pure-Keeps tt))
      | inr unknown ↦ rw (app, unknown) (raise-Keeps (err value_error))
    ]
    | inr other_kind ↦ elim (Bool-cases (starts_with target "container:")) [
      | inr neither ↦ rw (other_kind, neither) (raise-Keeps (err value_error))
      | inl container ↦
          elim (Bool-cases (contains (without "container:" target) (values container_scenarios))) [
            | inr unknown ↦ rw (other_kind, container, unknown) (raise-Keeps (err value_error))
            | inl known ↦
                rw (other_kind, container, known)
                  (recover_container-Keeps (without "container:" target) known)
          ]
    ]
  ]
