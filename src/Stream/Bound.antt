-- ===== src/Stream/Bound.antt =====
-- Whose connection it is: the one node that the certificate allows.
use aiops_control_lab.Base.{
  ◌≡◌, refl, ◌∙◌, arith, inl, inr, Bool-cases, ℕ, String, false, eq_iff, Option, none, some, List,
  [], ◌∷◌, lookup, map, Result, Exec, pure, lift, ◌>>=◌, bind_rule,
}
use aiops_control_lab.Domain.Monitoring.{AgentNode}
use aiops_control_lab.App.{App, utc_now}
use aiops_control_lab.Ingestion.{connect, ingest, mismatches}
use aiops_control_lab.Stream.{
  Frame, hello, telemetry, blank, MetricItem, TelemetryBatch, Connection, Peer, on_app, metrics_of,
  asset_of, edge_of, accept_hello, acknowledge, try_connect, take_hello, take_batch, take_frame,
  serve_frames,
}

-- Before a hello was accepted nothing has changed and nothing is acknowledged; after one, the node is
-- the one whose identity is the certificate's.
abbrev pub BoundAs : Peer → App → Option AgentNode → List ℕ → App → Type 0
BoundAs p s none acknowledged app = (acknowledged ≡ []) × (app ≡ s)
BoundAs p s (some node) acknowledged app =
    (lookup node.id p.allowed_identities ≡ some p.certificate_identity)
    × (node.certificate_identity ≡ p.certificate_identity)

abbrev pub Bound : Peer → App → Connection → Type 0
Bound p s c = BoundAs p s c.node c.acknowledged c.app

record KeepsNode {A : Type 0} (m : Exec Connection A) : Type 0 where
  same : (c : Connection) → (m c).1.node ≡ c.node

bind-KeepsNode :
    {A B : Type 0} (m : Exec Connection A) (f : A → Exec Connection B)
    → KeepsNode m
    → ((a : A) → KeepsNode (f a))
    → KeepsNode (m >>= f)
bind-KeepsNode m f first rest = record {
  same = λ c.
      bind_rule (λ out. out.1.node ≡ c.node) (λ out. out.1.node ≡ c.node) f (m c) (first.same c)
        (λ a t h. (rest a).same t ∙ h) (λ e t h. h);
}

pure-KeepsNode : {A : Type 0} (a : A) → KeepsNode (pure a)
pure-KeepsNode a = record { same = λ c. refl }

lift-KeepsNode : {A : Type 0} (r : Result A) → KeepsNode (lift r)
lift-KeepsNode r = record { same = λ c. refl }

on_app-KeepsNode : {A : Type 0} (m : Exec App A) → KeepsNode (on_app m)
on_app-KeepsNode m = record { same = λ c. refl }

acknowledge-KeepsNode : (p : Peer) (sequence : ℕ) → KeepsNode (acknowledge p sequence)
unfolding acknowledge
acknowledge-KeepsNode p sequence = record { same = λ c. refl }

metrics_of-KeepsNode : (p : Peer) (items : List MetricItem) → KeepsNode (metrics_of p items)
unfolding metrics_of
metrics_of-KeepsNode p [] = pure-KeepsNode []
metrics_of-KeepsNode p (item ∷ items) =
    bind-KeepsNode (lift (p.from_unix_ms item.collected_unix_ms)) _ (lift-KeepsNode _)
      λ collected_at.
        bind-KeepsNode (metrics_of p items) _ (metrics_of-KeepsNode p items)
          λ metrics. pure-KeepsNode _

take_batch-KeepsNode :
    (p : Peer) (node : AgentNode) (batch : TelemetryBatch) → KeepsNode (take_batch p node batch)
unfolding take_batch
take_batch-KeepsNode p node batch =
    bind-KeepsNode (lift (p.from_unix_ms batch.collected_unix_ms)) _ (lift-KeepsNode _)
      λ observed_at.
        bind-KeepsNode (metrics_of p batch.metrics) _ (metrics_of-KeepsNode p batch.metrics)
          λ metrics.
            bind-KeepsNode
              (on_app (
                ingest p.platform node batch.sequence metrics
                  (map (asset_of p observed_at) batch.assets)
                  (map (edge_of p observed_at) batch.topology)))
              _ (on_app-KeepsNode _) λ accepted. acknowledge-KeepsNode p batch.sequence

matches :
    (expected : Option String) (identity : String)
    → mismatches expected identity ≡ false
    → expected ≡ some identity
matches none identity h = cc
matches (some expected) identity h = ground (arith, eq_iff expected identity)

take_hello-Bound :
    (p : Peer) (s : App) (node_id version instance_id : String) (c : Connection)
    → c.node ≡ none
    → (c.acknowledged ≡ []) × (c.app ≡ s)
    → Bound p s (take_hello p none node_id version instance_id c).1
unfolding take_hello try_connect accept_hello connect utc_now
take_hello-Bound p s node_id version instance_id c fresh h =
    elim (Bool-cases (mismatches (lookup node_id p.allowed_identities) p.certificate_identity)) [
      | inl wrong ↦ rw wrong (rw fresh h)
      | inr right ↦
          rw right
            (matches (lookup node_id p.allowed_identities) p.certificate_identity right, refl)
    ]

take_frame-Bound :
    (p : Peer) (s : App) (frame : Frame) (node : Option AgentNode) (c : Connection)
    → c.node ≡ node
    → BoundAs p s node c.acknowledged c.app
    → Bound p s (take_frame p frame node c).1
unfolding take_frame take_hello
take_frame-Bound p s (hello node_id version instance_id) none c e h =
    take_hello-Bound p s node_id version instance_id c e h
take_frame-Bound p s (hello node_id version instance_id) (some node) c e h = rw e h
take_frame-Bound p s (telemetry batch) none c e h = rw e h
take_frame-Bound p s (telemetry batch) (some node) c e h =
    rw ((take_batch-KeepsNode p node batch).same c ∙ e) h
take_frame-Bound p s blank none c e h = rw e h
take_frame-Bound p s blank (some node) c e h = rw e h

frames-Bound :
    (p : Peer) (s : App) (frames : List Frame) (c : Connection)
    → Bound p s c
    → Bound p s (serve_frames p frames c).1
unfolding serve_frames
frames-Bound p s [] c h = h
frames-Bound p s (frame ∷ frames) c h =
    bind_rule (λ out. Bound p s out.1) (λ out. Bound p s out.1) (λ u. serve_frames p frames)
      (take_frame p frame c.node c) (take_frame-Bound p s frame c.node c refl h)
      (λ u t k. frames-Bound p s frames t k) (λ e t k. k)

-- Whatever messages an agent sends on a new connection, and however the loop ends: either no hello
-- was accepted, and then nothing in the process has changed and no batch is acknowledged, or the
-- connection's node is the one that the configuration allows to the peer's certificate.
pub serve_frames-Bound :
    (p : Peer) (frames : List Frame) (s : App)
    → Bound p s (serve_frames p frames (record { app = s; node = none; acknowledged = [] })).1
serve_frames-Bound p frames s =
    frames-Bound p s frames (record { app = s; node = none; acknowledged = [] }) (refl, refl)
