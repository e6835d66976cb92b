-- ===== src/Laboratory/Registered.antt =====
-- The requests that injections and resets send.
use aiops_control_lab.Base.{String, List, [], ◌∷◌, All}
use aiops_control_lab.App.{App}
use aiops_control_lab.Laboratory.Injector.{Lab, Injector, inject, reset}
use aiops_control_lab.Laboratory.Keeping.{Registered, IsStable, inject-Keeps, reset-Keeps}

-- What may happen to the laboratory: a request to inject or to reset, and changes elsewhere.
pub data Call : Type 0 where
  injects resets : String → Call
  elsewhere : App → Call

unfoldable pub serve : Injector → List Call → Lab → Lab
serve i [] s = s
serve i (injects scenario ∷ calls) s = serve i calls (inject i scenario s).1
serve i (resets target ∷ calls) s = serve i calls (reset i target s).1
serve i (elsewhere app ∷ calls) s = serve i calls (record s { app = app })

abbrev SentRegistered : Injector → Lab → Type 0
SentRegistered i s = All (Registered i) s.sent

SentRegistered-IsStable : (i : Injector) → IsStable i (SentRegistered i)
SentRegistered-IsStable i = record { on_app = λ s app h. h; on_sent = λ s request r h. (r, h) }

-- Whatever injections and resets are requested, by any name, and whatever is answered and happens
-- elsewhere: if only registered requests were sent before, then only registered ones are sent. Each
-- is a signed task that stops, checks or restarts a container of the catalogue, a registered fault of
-- the application for two minutes at most, or its end.
pub serve-Registered :
    (i : Injector) (calls : List Call) (s : Lab)
    → All (Registered i) s.sent
    → All (Registered i) (serve i calls s).sent
unfolding serve
serve-Registered i [] s h = h
serve-Registered i (injects scenario ∷ calls) s h =
    serve-Registered i calls (inject i scenario s).1
      ((inject-Keeps i (SentRegistered i) (SentRegistered-IsStable i) scenario).keeps s h)
serve-Registered i (resets target ∷ calls) s h =
    serve-Registered i calls (reset i target s).1
      ((reset-Keeps i (SentRegistered i) (SentRegistered-IsStable i) target).keeps s h)
serve-Registered i (elsewhere app ∷ calls) s h = serve-Registered i calls (record s { app = app }) h
