-- ===== src/Diagnosis/Fallback.antt =====
-- What the assistant answers when the language model is off or fails.
use aiops_control_lab.Base.{
  ◌≡◌, refl, inl, inr, ◌⊎◌, Bool-cases, String, true, false, List, map, Result-cases, Error, ok,
  err,
}
use aiops_control_lab.Texts.{joined_by}
use aiops_control_lab.Diagnosis.Retrieval.{RetrievalHit}
use aiops_control_lab.Diagnosis.{
  GeneratedDiagnosis, DiagnosticAnswer, Assistant, build_context, answer, fall_back, diagnose,
}

-- The answer is the model's, which is on, or the model is off or failed, and then the answer is
-- degraded, and its diagnosis the fallback's on the question and the evidence alone.
unfoldable pub Answers :
    Assistant → String → List String → List RetrievalHit → DiagnosticAnswer → Type 0
Answers a question evidence hits out =
    ((out.degraded ≡ false)
      × (a.primary_enabled ≡ true)
      × (a.primary_model question (build_context a evidence hits) ≡ ok out.diagnosis))
    ⊎ ((out.degraded ≡ true)
        × ((a.primary_enabled ≡ false)
            ⊎ ((e : Error) × (a.primary_model question (build_context a evidence hits) ≡ err e)))
        × (a.fallback_model question (joined_by "\n" evidence) ≡ ok out.diagnosis))

-- If the retrieval and the fallback answer, then so does the assistant, whatever the language model
-- does. The answer cites what was retrieved. Either the language model, which is on, gave the
-- diagnosis, or it is off or failed; then the answer is marked as degraded and the fallback gave the
-- diagnosis from the question and the evidence, without what was retrieved.
pub diagnose-Answers :
    (a : Assistant) (question : String) (evidence : List String) (hits : List RetrievalHit)
    (fallback : GeneratedDiagnosis)
    → a.search question ≡ ok hits
    → a.fallback_model question (joined_by "\n" evidence) ≡ ok fallback
    → (out : DiagnosticAnswer) × (diagnose a question evidence ≡ ok out)
      × (out.citations ≡ map (λ (hit : RetrievalHit). hit.citation) hits)
      × Answers a question evidence hits out
unfolding diagnose fall_back Answers
diagnose-Answers a question evidence hits fallback searched fell =
    elim (Bool-cases a.primary_enabled) [
      | inr off ↦ (
        answer a hits true fallback,
        rw (searched, off, fell) refl,
        refl,
        inr (refl, inl off, fell),
      )
      | inl on ↦ elim (Result-cases (a.primary_model question (build_context a evidence hits))) [
        | inl (diagnosis, e) ↦
            (answer a hits false diagnosis, rw (searched, on) (rw e refl), refl, inl (refl, on, e))
        | inr (e, failed) ↦ (
          answer a hits true fallback,
          rw (searched, on) (rw (failed, fell) refl),
          refl,
          inr (refl, inr (e, failed), fell),
        )
      ]
    ]
