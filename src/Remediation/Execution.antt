-- ===== src/Remediation/Execution.antt =====
-- The two loops over the dispatcher: the steps of the plan, and the compensation of what was done.
use aiops_control_lab.Base.{
  Result-cases, ◌≡◌, refl, sym, ap, ap₂, ◌∙◌, Bool, Bool-cases, true, false, not, ◌&&◌, String, inl,
  inr, List, [], ◌∷◌, ◌++◌, map, reverse, keep, is_empty, is_empty-nil, take, all, Result, ok, err,
  arith,
}
use mathlib.Core.List.{append_assoc, append-nil}
use aiops_control_lab.Domain.Models.{RemediationStep, StepOutput}
use aiops_control_lab.App.{App}
use aiops_control_lab.Remediation.{
  StepExecutionResult, Service, Progress, output_of, run_steps, has_rollback, compensation,
  compensate, rollback,
}
use aiops_control_lab.Remediation.Calls.{
  calls, Made, Made-cons, after_call, successes, Answered, silent, answers, Raised, Raised-cons,
  Raised-first,
}

module _ (v : Service) (hash : String) where
  -- A loop over `steps` has ended by itself: the outputs are the answers to its calls; the dispatcher
  -- has answered with a success for each step that is completed, and with a failure for the one after
  -- them, if any is left.
  pub record Went (steps : List RemediationStep) (p q : Progress) (s t : App) : Type 0 where
    pub made : Made hash steps s t
    pub outputs : List StepOutput
    pub heard : Answered v hash (made.done ++ take 1 made.rest) outputs s.dispatched
    pub judged :
        successes outputs ≡ map (λ _. true) made.done ++ map (λ _. false) (take 1 made.rest)
    pub recorded : q.step_outputs ≡ p.step_outputs ++ outputs
    pub completed : q.completed_steps ≡ p.completed_steps ++ made.done
    pub succeeded : q.succeeded ≡ is_empty made.rest

  -- How the loop over the steps ends.
  abbrev pub Ends : List RemediationStep → Progress → App → Result Progress × App → Type 0
  Ends steps p s (ok q, t) = Went steps p q s t
  Ends steps p s (err e, t) =
      (b : Raised v hash steps s e t) × (successes b.outputs ≡ map (λ _. true) b.made.done)

  -- The progress once a step has succeeded.
  abbrev further : Progress → RemediationStep → StepExecutionResult → Progress
  further p x r = record {
    step_outputs = p.step_outputs ++ output_of x r ∷ [];
    completed_steps = p.completed_steps ++ x ∷ [];
    succeeded = true;
  }

  Ends-cons :
      (x : RemediationStep) (xs : List RemediationStep) (p : Progress) (s : App)
      (r : StepExecutionResult)
      → v.dispatcher s.dispatched x hash ≡ ok r
      → r.succeeded ≡ true
      → (out : Result Progress × App) → Ends xs (further p x r) (after_call hash x s) out
      → Ends (x ∷ xs) p s out
  unfolding Made-cons Raised-cons
  Ends-cons x xs p s r answered good (ok q, t) w = record {
    made = Made-cons hash x xs s t w.made;
    outputs = output_of x r ∷ w.outputs;
    heard = answers r answered w.heard;
    judged = ap₂ (λ b bs. b ∷ bs) good w.judged;
    recorded = w.recorded ∙ append_assoc p.step_outputs (output_of x r ∷ []) w.outputs;
    completed = w.completed ∙ append_assoc p.completed_steps (x ∷ []) w.made.done;
    succeeded = w.succeeded;
  }
  Ends-cons x xs p s r answered good (err e, t) (b, well) =
      (Raised-cons v hash x xs s r e t answered b, ap₂ (λ c cs. c ∷ cs) good well)

  -- The loop over the steps calls the dispatcher for each step in turn, until it first answers that
  -- the step has not succeeded, or raises. It records exactly these answers as outputs, and as
  -- completed exactly the steps for which the dispatcher answered that they succeeded; it reports
  -- success exactly if no step is left, and changes nothing but the dispatcher's log.
  pub run_steps-Ends :
      (steps : List RemediationStep) (p : Progress) (s : App)
      → p.succeeded ≡ true
      → Ends steps p s (run_steps v hash steps p s)
  unfolding run_steps Raised-first
  run_steps-Ends [] p s well = record {
    made = record { done = []; rest = []; parts = refl; log = refl; others = refl };
    outputs = [];
    heard = silent;
    judged = refl;
    recorded = sym (append-nil p.step_outputs);
    completed = sym (append-nil p.completed_steps);
    succeeded = well;
  }
  run_steps-Ends (x ∷ xs) p s well = elim (Result-cases (v.dispatcher s.dispatched x hash)) [
    | inr (e, raised) ↦ rw raised (Raised-first v hash x xs s e raised, refl)
    | inl (r, answered) ↦ elim (Bool-cases r.succeeded) [
      | inl good ↦
          let answered' = answered ∙ ap (λ b. ok (record r { succeeded = b })) good in
          rw answered' (
            Ends-cons x xs p s (record r { succeeded = true }) answered' refl _
              (run_steps-Ends xs (further p x (record r { succeeded = true })) _ refl))
      | inr bad ↦
          let answered' = answered ∙ ap (λ b. ok (record r { succeeded = b })) bad in
          rw answered' (record {
            made = record { done = []; rest = x ∷ xs; parts = refl; log = refl; others = refl };
            outputs = output_of x (record r { succeeded = false }) ∷ [];
            heard = answers (record r { succeeded = false }) answered' silent;
            judged = refl;
            recorded = refl;
            completed = sym (append-nil p.completed_steps);
            succeeded = refl;
          })
    ]
  ]

  -- What the compensation of some steps did: it called the dispatcher for every one of them, in
  -- order, added exactly its answers, changed nothing else, and its verdict is that all of these are
  -- successes.
  record Compensated (steps : List RemediationStep) (outputs : List StepOutput) (so_far : Bool)
      (s : App) (after : List StepOutput) (verdict : Bool) (t : App) : Type 0 where
    added : List StepOutput
    extended : after ≡ outputs ++ added
    heard : Answered v hash (map compensation steps) added s.dispatched
    judged : verdict ≡ (so_far && all (λ o. o.succeeded) added)
    log : t.dispatched ≡ calls hash (map compensation steps) s.dispatched
    others : t ≡ record s { dispatched = t.dispatched }

  abbrev Undoes :
      List RemediationStep
      → List StepOutput
      → Bool
      → App
      → Result (List StepOutput × Bool) × App
      → Type 0
  Undoes steps outputs so_far s (ok (after, verdict), t) =
      Compensated steps outputs so_far s after verdict t
  Undoes steps outputs so_far s (err e, t) = Raised v hash (map compensation steps) s e t

  Undoes-cons :
      (x : RemediationStep) (xs : List RemediationStep) (outputs : List StepOutput) (so_far : Bool)
      (s : App) (r : StepExecutionResult)
      → v.dispatcher s.dispatched (compensation x) hash ≡ ok r
      → (out : Result (List StepOutput × Bool) × App)
      → Undoes xs
          (outputs ++ output_of (compensation x) r ∷ [])
          (so_far && r.succeeded)
          (after_call hash (compensation x) s)
          out
      → Undoes (x ∷ xs) outputs so_far s out
  Undoes-cons x xs outputs so_far s r answered (ok (after, verdict), t) c = record {
    added = output_of (compensation x) r ∷ c.added;
    extended = c.extended ∙ append_assoc outputs (output_of (compensation x) r ∷ []) c.added;
    heard = answers r answered c.heard;
    judged = ground (arith, c.judged);
    log = c.log;
    others = c.others;
  }
  Undoes-cons x xs outputs so_far s r answered (err e, t) b =
      Raised-cons v hash (compensation x) (map compensation xs) s r e t answered b

  compensate-Undoes :
      (steps : List RemediationStep) (outputs : List StepOutput) (so_far : Bool) (s : App)
      → Undoes steps outputs so_far s (compensate v hash steps outputs so_far s)
  unfolding compensate
  compensate-Undoes [] outputs so_far s = record {
    added = [];
    extended = sym (append-nil outputs);
    heard = silent;
    judged = ground arith;
    log = refl;
    others = refl;
  }
  compensate-Undoes (x ∷ xs) outputs so_far s =
      elim (Result-cases (v.dispatcher s.dispatched (compensation x) hash)) [
        | inr (e, raised) ↦
            rw raised (Raised-first v hash (compensation x) (map compensation xs) s e raised)
        | inl (r, answered) ↦ rw answered (
            Undoes-cons x xs outputs so_far s r answered _ (
              compensate-Undoes xs (outputs ++ output_of (compensation x) r ∷ [])
                (so_far && r.succeeded) _))
      ]

  -- The steps that a rollback compensates for.
  abbrev pub undone : List RemediationStep → List RemediationStep
  undone completed = keep has_rollback (reverse completed)

  -- How a rollback ends.
  abbrev pub RollsBack : List RemediationStep → App → Result (List StepOutput × Bool) × App → Type 0
  RollsBack completed s (ok (outputs, rolled_back), t) =
      Answered v hash (map compensation (undone completed)) outputs s.dispatched
      × (rolled_back ≡ (not (is_empty (undone completed)) && all (λ o. o.succeeded) outputs))
      × (t.dispatched ≡ calls hash (map compensation (undone completed)) s.dispatched)
      × (t ≡ record s { dispatched = t.dispatched })
  RollsBack completed s (err e, t) = Raised v hash (map compensation (undone completed)) s e t

  RollsBack-of_Undoes :
      (completed : List RemediationStep) (s : App) (out : Result (List StepOutput × Bool) × App)
      → is_empty (undone completed) ≡ false
      → Undoes (undone completed) [] true s out
      → RollsBack completed s out
  RollsBack-of_Undoes completed s (ok (outputs, verdict), t) some_left c =
      (rw c.extended c.heard, rw some_left (rw c.extended c.judged), c.log, c.others)
  RollsBack-of_Undoes completed s (err e, t) some_left b = b

  -- A rollback calls the dispatcher for the compensation of every completed step that names one, the
  -- last completed step first and also after a compensation has failed, until the dispatcher raises.
  -- It returns exactly the dispatcher's answers, changes nothing but the dispatcher's log, and reports
  -- a rollback exactly if there was such a step and the dispatcher answered for all of them that they
  -- succeeded.
  pub rollback-RollsBack :
      (completed : List RemediationStep) (s : App)
      → RollsBack completed s (rollback v completed hash s)
  unfolding rollback
  rollback-RollsBack completed s = elim (Bool-cases (is_empty (undone completed))) [
    | inl nothing ↦
        let none_left = is_empty-nil (undone completed) nothing in
        rw (nothing, none_left) (silent, refl, refl, refl)
    | inr some_left ↦ rw some_left (
        RollsBack-of_Undoes completed s _ some_left
          (compensate-Undoes (undone completed) [] true s))
  ]
