-- ===== src/Remediation/Calls.antt =====
-- The calls that a loop makes to the dispatcher, and what it answers.
use aiops_control_lab.Base.{
  ◌≡◌, refl, ap, Error, Bool, String, List, [], ◌∷◌, ◌++◌, map, take, ok, err,
}
use aiops_control_lab.Domain.Models.{RemediationStep, StepOutput}
use aiops_control_lab.App.{App, Dispatched}
use aiops_control_lab.Remediation.{StepExecutionResult, Service, output_of}

-- The dispatcher's log after calls for some steps, in order.
abbrev pub calls : String → List RemediationStep → List Dispatched → List Dispatched
calls hash [] log = log
calls hash (step ∷ steps) log =
    calls hash steps ((record { step = step; approved_hash = hash }) ∷ log)

-- The calls that a loop over `steps` made between two states: those for the steps that went well,
-- which are a beginning of the list, and for the one after them, in order; nothing else changed.
pub record Made (hash : String) (steps : List RemediationStep) (s t : App) : Type 0 where
  pub done : List RemediationStep
  pub rest : List RemediationStep
  pub parts : steps ≡ done ++ rest
  pub log : t.dispatched ≡ calls hash (done ++ take 1 rest) s.dispatched
  pub others : t ≡ record s { dispatched = t.dispatched }

unfoldable pub Made-cons :
    (hash : String) (x : RemediationStep) (xs : List RemediationStep) (s t : App)
    → Made hash xs
        (record s { dispatched = (record { step = x; approved_hash = hash }) ∷ s.dispatched })
        t
    → Made hash (x ∷ xs) s t
Made-cons hash x xs s t m = record {
  done = x ∷ m.done;
  rest = m.rest;
  parts = ap (λ l. x ∷ l) m.parts;
  log = m.log;
  others = m.others;
}

-- The entry of the log for a call.
abbrev pub entry : String → RemediationStep → Dispatched
entry hash step = record { step = step; approved_hash = hash }

-- The states of the loop before and after a call.
abbrev pub after_call : String → RemediationStep → App → App
after_call hash step s = record s { dispatched = entry hash step ∷ s.dispatched }

abbrev pub successes : List StepOutput → List Bool
successes outputs = map (λ o. o.succeeded) outputs

module _ (v : Service) (hash : String) where
  -- The outputs are what the dispatcher answers to calls for the steps, one after the other.
  pub data Answered : List RemediationStep → List StepOutput → List Dispatched → Type 0 where
    silent : {log : List Dispatched} → Answered [] [] log
    answers :
        {x : RemediationStep} {xs : List RemediationStep} {outputs : List StepOutput}
        {log : List Dispatched} (r : StepExecutionResult)
        → v.dispatcher log x hash ≡ ok r
        → Answered xs outputs (entry hash x ∷ log)
        → Answered (x ∷ xs) (output_of x r ∷ outputs) log

  -- A loop over `steps` ended because the dispatcher raised: it answered for those before, and raised
  -- for the next.
  pub record Raised (steps : List RemediationStep) (s : App) (e : Error) (t : App) : Type 0 where
    pub made : Made hash steps s t
    pub outputs : List StepOutput
    pub heard : Answered made.done outputs s.dispatched
    pub next : RemediationStep
    pub left : List RemediationStep
    pub stopped : made.rest ≡ next ∷ left
    pub raised : v.dispatcher (calls hash made.done s.dispatched) next hash ≡ err e

  unfoldable pub Raised-cons :
      (x : RemediationStep) (xs : List RemediationStep) (s : App) (r : StepExecutionResult)
      (e : Error) (t : App)
      → v.dispatcher s.dispatched x hash ≡ ok r
      → Raised xs (after_call hash x s) e t
      → Raised (x ∷ xs) s e t
  unfolding Made-cons
  Raised-cons x xs s r e t answered b = record {
    made = Made-cons hash x xs s t b.made;
    outputs = output_of x r ∷ b.outputs;
    heard = answers r answered b.heard;
    next = b.next;
    left = b.left;
    stopped = b.stopped;
    raised = b.raised;
  }

  unfoldable pub Raised-first :
      (x : RemediationStep) (xs : List RemediationStep) (s : App) (e : Error)
      → v.dispatcher s.dispatched x hash ≡ err e
      → Raised (x ∷ xs) s e (after_call hash x s)
  Raised-first x xs s e raised = record {
    made = record { done = []; rest = x ∷ xs; parts = refl; log = refl; others = refl };
    outputs = [];
    heard = silent;
    next = x;
    left = xs;
    stopped = refl;
    raised = raised;
  }
