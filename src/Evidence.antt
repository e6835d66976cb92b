-- ===== src/Evidence.antt =====
-- application/evidence_collection_service.py: evidence from Prometheus and Loki for an incident.
pub mod Complete
use Prim.Native.String.{◌++◌, count}
use aiops_control_lab.Base.{
  ℕ, ◌-◌, String, Bool, true, false, not, ◌&&◌, ◌||◌, Option, none, some, List, [], ◌∷◌,
  ◌++◌ as list_append, length, take, best_from, contains, is_empty, sorted, Dict, ltb, leb, Exec,
  Result, ok, err, pure, raise_if, lift, gets, ◌>>=◌, ◌>>◌, external_source, Float, float_lt,
  if◌then◌else◌,
}
use aiops_control_lab.Texts.{joined_by}
use aiops_control_lab.Domain.Models.{Time, EvidenceRef, Incident}
use aiops_control_lab.Repository.{save_incident, get_incident, text_lt}
use aiops_control_lab.App.{App, Platform, new_id, seconds, store}
use aiops_control_lab.Remediation.{found}

-- A `datetime`, and whether it has a time zone
pub record Moment : Type 0 where
  pub time : Time
  pub aware : Bool

-- domain/telemetry.py, as far as the summaries read it: the values of the samples and the labels of
-- the records
abbrev pub MetricQuery : Type 0
MetricQuery = String → Time → Time → ℕ → Result (List Float)

abbrev pub LogQuery : Type 0
LogQuery = String → Time → Time → ℕ → Result (List (Dict String))

-- `EvidenceCollectionService`, with the sources that are configured. `is_blank` says whether nothing
-- is left of a text by `strip()`; `decimal` and `four_digits` print an int and a float, `{:.4g}`.
pub record Evidence : Type 0 where
  pub platform : Platform
  pub metric_query : Option MetricQuery
  pub log_query : Option LogQuery
  pub is_blank : String → Bool
  pub decimal : ℕ → String
  pub four_digits : Float → String

abbrev pub max_window : ℕ
max_window = seconds 21_600

abbrev pub max_query_length : ℕ
max_query_length = 1_024

abbrev pub configured : {A : Type 0} → Option A → Exec App A
configured none s = (err external_source, s)
configured (some source) s = (ok source, s)

-- the labels of the records as a set: each key once
unfoldable pub add_keys : Dict String → List String → List String
add_keys [] keys = keys
add_keys ((k, v) ∷ labels) keys = add_keys labels (if contains k keys then keys else k ∷ keys)

unfoldable pub label_keys : List (Dict String) → List String → List String
unfolding add_keys
label_keys [] keys = keys
label_keys (labels ∷ records) keys = label_keys records (add_keys labels keys)

-- `values[-1]`, `min(values)` and `max(values)` of a list that starts with `x`
unfoldable pub latest_value : Float → List Float → Float
latest_value x [] = x
latest_value x (y ∷ values) = latest_value y values

module _ (v : Evidence) where
  -- `_validate_query`
  unfoldable pub validate_query : String → Moment → Moment → Exec App (Unit {0})
  validate_query query started_at ended_at = do
    raise_if (v.is_blank query || ltb max_query_length (count query)) external_source
    raise_if (not started_at.aware || not ended_at.aware) external_source
    raise_if (leb ended_at.time started_at.time) external_source
    raise_if (ltb max_window (ended_at.time - started_at.time)) external_source

  unfoldable pub metric_summary : List Float → String
  unfolding latest_value
  metric_summary [] = "Prometheus 在指定窗口没有返回样本"
  metric_summary (x ∷ values) =
      "Prometheus 返回 "
      ++ (v.decimal (length (x ∷ values))
          ++ (" 个样本；最小值 "
              ++ (v.four_digits (best_from float_lt x values)
                  ++ ("，最大值 "
                      ++ (v.four_digits (best_from (λ a b. float_lt b a) x values)
                          ++ ("，最新值 " ++ v.four_digits (latest_value x values)))))))

  unfoldable pub log_summary : List (Dict String) → String
  unfolding label_keys joined_by
  log_summary records =
      let keys = take 10 (sorted text_lt (label_keys records [])) in
      "Loki 返回 "
      ++ (v.decimal (length records)
          ++ (" 条日志；标签字段：" ++ (if is_empty keys then "无标签" else joined_by ", " keys)))

  -- the evidence is appended to the incident of the repository, and the incident saved
  unfoldable pub attach : Incident → EvidenceRef → Exec App EvidenceRef
  attach incident evidence = do
    store (
        save_incident
          (record incident { evidence = list_append incident.evidence (evidence ∷ []) }))
    pure evidence

  -- from the construction of the `EvidenceRef` on
  unfoldable pub record_evidence :
      Incident → String → String → Moment → Moment → String → Exec App EvidenceRef
  unfolding attach
  record_evidence incident source query started_at ended_at summary = do
    id ← new_id v.platform "evi"
    attach incident (record {
      id = id;
      source = source;
      query = query;
      started_at = started_at.time;
      ended_at = ended_at.time;
      summary = summary;
    })

  -- `_get_incident`
  unfoldable pub get_known_incident : String → Exec App Incident
  get_known_incident incident_id = gets (λ s. get_incident incident_id s.repository) >>= found

  unfoldable pub attach_metric_evidence :
      String → String → Moment → Moment → ℕ → Exec App EvidenceRef
  unfolding validate_query get_known_incident metric_summary record_evidence
  attach_metric_evidence incident_id query started_at ended_at step_seconds = do
    validate_query query started_at ended_at
    query_range ← configured v.metric_query
    incident ← get_known_incident incident_id
    samples ← lift (query_range query started_at.time ended_at.time step_seconds)
    record_evidence incident "prometheus" query started_at ended_at (metric_summary samples)

  unfoldable pub attach_log_evidence : String → String → Moment → Moment → ℕ → Exec App EvidenceRef
  unfolding validate_query get_known_incident log_summary record_evidence
  attach_log_evidence incident_id query started_at ended_at limit = do
    validate_query query started_at ended_at
    query_range ← configured v.log_query
    incident ← get_known_incident incident_id
    records ← lift (query_range query started_at.time ended_at.time limit)
    record_evidence incident "loki" query started_at ended_at (log_summary records)
