-- ===== src/Remediation/Log.antt =====
-- Which calls an approval can make of the dispatcher, also where it raises in the middle.
use aiops_control_lab.Base.{
  ◌≡◌, refl, sym, ap, ◌∙◌, subst, Bool, Bool-cases, true, false, String, starts_with, inl, inr,
  Option, none, some, ◌&&◌, List, [], ◌∷◌, ◌++◌, reverse, keep, is_empty, All, All-append, Result,
  ok, err, Result-cases, bind_rule, ◌>>=◌, ◌+◌, if◌then◌else◌,
}
use mathlib.Core.List.{append_assoc, reverse_aux}
use aiops_control_lab.Domain.Models.{
  Time, RemediationStep, Incident, Verification, Output, StepOutput,
}
use aiops_control_lab.Domain.Enums.{PlanStatus}
use aiops_control_lab.Repository.{save_plan, save_action_run}
use aiops_control_lab.App.{App, Platform, Dispatched, utc_now}
use aiops_control_lab.Remediation.{
  Service, Authorized, Progress, run_steps, has_rollback, compensation, compensate, rollback,
  verify_with, settle, conclude, final_status, transition, carry_out,
}
use aiops_control_lab.Domain.Lifecycle.{finish}
use aiops_control_lab.Remediation.Execution.{Ends, run_steps-Ends}

-- A predicate of steps that holds of a step and of the compensation that it names, if it names one.
abbrev pub Covers : (RemediationStep → Type 0) → RemediationStep → Type 0
Covers Q x = Q x × (has_rollback x ≡ true → Q (compensation x))

-- Between two states the dispatcher was called with the approved hash only, and only for steps that
-- satisfy `Q`.
pub record Logged (Q : RemediationStep → Type 0) (hash : String) (s t : App) : Type 0 where
  pub more : List Dispatched
  pub log : t.dispatched ≡ more ++ s.dispatched
  pub sound : All (λ (d : Dispatched). (d.approved_hash ≡ hash) × Q d.step) more

All-reverse_aux :
    (P : RemediationStep → Type 0) (xs acc : List RemediationStep)
    → All P xs
    → All P acc
    → All P (reverse_aux xs acc)
All-reverse_aux P [] acc h k = k
All-reverse_aux P (x ∷ xs) acc h k = All-reverse_aux P xs (x ∷ acc) h.1 (h.0, k)

All-front :
    (P : RemediationStep → Type 0) (xs ys : List RemediationStep) → All P (xs ++ ys) → All P xs
All-front P [] ys h = tt
All-front P (x ∷ xs) ys h = (h.0, All-front P xs ys h.1)

-- The calls that make no use of the dispatcher.
transition-dispatched :
    (p : Platform) (method : Time → Incident → Result Incident) (i : Incident) (s : App)
    → (transition p method i s).1.dispatched ≡ s.dispatched
unfolding transition
transition-dispatched p method i s = elim (Result-cases (method (p.clock s.ticks) i)) [
  | inl (j, e) ↦ rw (e, transition) refl
  | inr (e, f) ↦ rw (f, transition) refl
]

pub conclude-dispatched :
    (v : Service) (a : Authorized) (o : Output) (b rb : Bool) (s : App)
    → (conclude v a o b rb s).1.dispatched ≡ s.dispatched
unfolding conclude utc_now
conclude-dispatched v a o b rb s =
    let t : App = record s {
      repository =
          save_plan
            (record (a.plan) { status = if b then PlanStatus.succeeded else PlanStatus.failed })
            (save_action_run
              (record (a.action_run) {
                output = some o;
                finished_at = some (v.platform.clock s.ticks);
                status = final_status b rb;
              })
              s.repository);
      ticks = s.ticks + 1;
    } in
    bind_rule {A = Incident} (λ out. out.1.dispatched ≡ s.dispatched)
      (λ out. out.1.dispatched ≡ s.dispatched) _ (transition v.platform (finish b) a.incident t)
      (transition-dispatched v.platform (finish b) a.incident t) (λ i u e. e) (λ e u h. h)

verify_with-same :
    (verifier : Option (List Dispatched → String → Result Verification)) (i : Incident) (b : Bool)
    (s : App)
    → (verify_with verifier i b s).1 ≡ s
unfolding verify_with
verify_with-same none i b s = refl
verify_with-same (some verify) i b s = elim (Bool-cases (b && starts_with i.asset_id "lab-")) [
  | inr skipped ↦ rw skipped refl
  | inl asked ↦ rw asked (elim (Result-cases (verify s.dispatched i.asset_id)) [
    | inl (w, e) ↦ rw e refl
    | inr (e, f) ↦ rw f refl
  ])
]

module _ (Q : RemediationStep → Type 0) (hash : String) where
  pub Logged-same : (s t : App) → t.dispatched ≡ s.dispatched → Logged Q hash s t
  Logged-same s t e = record { more = []; log = e; sound = tt }

  Logged-trans : (s t u : App) → Logged Q hash s t → Logged Q hash t u → Logged Q hash s u
  Logged-trans s t u a b = record {
    more = b.more ++ a.more;
    log = b.log ∙ ap (λ l. b.more ++ l) a.log ∙ sym (append_assoc b.more a.more s.dispatched);
    sound = All-append _ b.more a.more b.sound a.sound;
  }

  Logged-call :
      (x : RemediationStep) (s t : App)
      → Q x
      → t.dispatched ≡ (record { step = x; approved_hash = hash }) ∷ s.dispatched
      → Logged Q hash s t
  Logged-call x s t q e = record {
    more = (record { step = x; approved_hash = hash }) ∷ [];
    log = e;
    sound = ((refl, q), tt);
  }

  All-keep :
      (xs : List RemediationStep)
      → All (Covers Q) xs
      → All (λ x. Q (compensation x)) (keep has_rollback xs)
  All-keep [] h = tt
  All-keep (x ∷ xs) h = elim (Bool-cases (has_rollback x)) [
    | inl b ↦ rw b (h.0.1 b, All-keep xs h.1)
    | inr b ↦ rw b (All-keep xs h.1)
  ]

  All-fst : (xs : List RemediationStep) → All (Covers Q) xs → All Q xs
  All-fst [] h = tt
  All-fst (x ∷ xs) h = (h.0.0, All-fst xs h.1)

  module _ (v : Service) where
    run_steps-Logged :
        (steps : List RemediationStep) (p : Progress) (s : App)
        → All Q steps
        → Logged Q hash s (run_steps v hash steps p s).1
    unfolding run_steps
    run_steps-Logged [] p s h = Logged-same s s refl
    run_steps-Logged (x ∷ xs) p s h =
        let s' : App = record s {
          dispatched = (record { step = x; approved_hash = hash }) ∷ s.dispatched;
        } in
        elim (Result-cases (v.dispatcher s.dispatched x hash)) [
          | inr (e, raised) ↦ rw raised (Logged-call x s s' h.0 refl)
          | inl (r, answered) ↦ elim (Bool-cases r.succeeded) [
            | inl good ↦
                rw (answered, good)
                  (Logged-trans s s' _ (Logged-call x s s' h.0 refl) (run_steps-Logged xs _ s' h.1))
            | inr bad ↦ rw (answered, bad) (Logged-call x s s' h.0 refl)
          ]
        ]

    compensate-Logged :
        (steps : List RemediationStep) (outputs : List StepOutput) (so_far : Bool) (s : App)
        → All (λ x. Q (compensation x)) steps
        → Logged Q hash s (compensate v hash steps outputs so_far s).1
    unfolding compensate
    compensate-Logged [] outputs so_far s h = Logged-same s s refl
    compensate-Logged (x ∷ xs) outputs so_far s h =
        let s' : App = record s {
          dispatched = (record { step = compensation x; approved_hash = hash }) ∷ s.dispatched;
        } in
        elim (Result-cases (v.dispatcher s.dispatched (compensation x) hash)) [
          | inr (e, raised) ↦ rw raised (Logged-call (compensation x) s s' h.0 refl)
          | inl (r, answered) ↦ rw answered (
              Logged-trans s s' _ (Logged-call (compensation x) s s' h.0 refl)
                (compensate-Logged xs _ _ s' h.1))
        ]

    rollback-Logged :
        (completed : List RemediationStep) (s : App)
        → All (Covers Q) completed
        → Logged Q hash s (rollback v completed hash s).1
    unfolding rollback
    rollback-Logged completed s h =
        let steps = keep has_rollback (reverse completed) in
        elim (Bool-cases (is_empty steps)) [
          | inl nothing ↦ rw nothing (Logged-same s s refl)
          | inr some_left ↦ rw some_left (
              compensate-Logged steps [] true s
                (All-keep _ (All-reverse_aux (Covers Q) completed [] h tt)))
        ]

module _ (Q : RemediationStep → Type 0) (v : Service) where
  settle-Logged :
      (a : Authorized) (q : Progress) (answer : Option Verification) (b : Bool) (s : App)
      → All (Covers Q) q.completed_steps
      → Logged Q a.action_run.approved_hash s (settle v a q answer b s).1
  unfolding settle
  settle-Logged a q answer true s h = Logged-same Q _ s _ (conclude-dispatched v a _ true false s)
  settle-Logged a q answer false s h =
      let hash = a.action_run.approved_hash in
      bind_rule {A = List StepOutput × Bool} (λ out. Logged Q hash s out.1)
        (λ out. Logged Q hash s out.1)
        (λ undone.
          conclude v a
            (record { steps = q.step_outputs; rollback = undone.0; verification = answer }) false
            undone.1)
        (rollback v q.completed_steps hash s) (rollback-Logged Q hash v q.completed_steps s h)
        (λ undone t l.
          Logged-trans Q hash s t _ l
            (Logged-same Q hash t _ (conclude-dispatched v a _ false undone.1 t)))
        (λ e t l. l)

  -- What the loop leaves: the log, and completed steps that are all steps of the plan.
  abbrev Looped : String → App → Result Progress × App → Type 0
  Looped hash s (ok q, t) = Logged Q hash s t × All (Covers Q) q.completed_steps
  Looped hash s (err e, t) = Logged Q hash s t

  looped :
      (v : Service) (hash : String) (steps : List RemediationStep) (p : Progress) (s : App)
      → p.completed_steps ≡ []
      → All (Covers Q) steps
      → (out : Result Progress × App) → Ends v hash steps p s out
      → Logged Q hash s out.1
      → Looped hash s out
  looped v hash steps p s none_yet h (ok q, t) w l = (
    l,
    subst (All (Covers Q)) (ap (λ c. c ++ w.made.done) (sym none_yet) ∙ sym w.completed)
        (All-front (Covers Q) w.made.done w.made.rest (subst (All (Covers Q)) w.made.parts h)),
  )
  looped v hash steps p s none_yet h (err e, t) m l = l

  pub carry_out-Logged :
      (a : Authorized) (s : App)
      → All (Covers Q) a.plan.steps
      → Logged Q a.action_run.approved_hash s (carry_out v a s).1
  unfolding carry_out
  carry_out-Logged a s h =
      let hash = a.action_run.approved_hash in
      let p : Progress = record { step_outputs = []; completed_steps = []; succeeded = true } in
      bind_rule (Looped hash s) (λ out. Logged Q hash s out.1)
        (λ q. verify_with v.recovery_verifier a.incident q.succeeded >>= λ (answer, b).
          settle v a q answer b)
        (run_steps v hash a.plan.steps p s)
        (looped v hash a.plan.steps p s refl h _ (run_steps-Ends v hash a.plan.steps p s refl)
          (run_steps-Logged Q hash v a.plan.steps p s (All-fst Q hash a.plan.steps h)))
        (λ q t l.
          bind_rule {A = Option Verification × Bool} (λ out. out.1 ≡ t)
            (λ out. Logged Q hash s out.1) (λ (answer, b). settle v a q answer b)
            (verify_with v.recovery_verifier a.incident q.succeeded t)
            (verify_with-same v.recovery_verifier a.incident q.succeeded t)
            (λ checked u e.
              Logged-trans Q hash s u _ (subst (Logged Q hash s) (sym e) l.0)
                (settle-Logged a q checked.0 checked.1 u l.1))
            (λ e u same. subst (Logged Q hash s) (sym same) l.0))
        (λ e t l. l)
