-- ===== src/MetricStore.antt =====
-- adapters/agent_metric_store.py and application/metric_registry.py: the latest registered metric of
-- each label set, and the sequences that were accepted.
pub mod Dedup
pub mod Escape
pub mod Export
use Prim.Native.Nat.{Ordering}
use Prim.Native.String.{compare}
use aiops_control_lab.Base.{
  ℕ, String, Bool, true, false, not, ◌&&◌, ◌||◌, ◌==◌, Option, none, some, List, [], ◌∷◌, Dict,
  lookup, lookup_pair, insert_pair, keep, sorted, contains, leb, if◌then◌else◌,
}
use aiops_control_lab.Domain.Monitoring.{LatestMetric}
use aiops_control_lab.App.{MetricStore}

-- The keys of `REGISTERED_METRICS`.
abbrev pub registered_metrics : List String
registered_metrics =
    "aiops_host_load1" ∷ "aiops_host_cpu_percent" ∷ "aiops_host_memory_total_bytes"
    ∷ "aiops_host_memory_available_bytes" ∷ "aiops_host_memory_available_percent"
    ∷ "aiops_host_disk_total_bytes" ∷ "aiops_host_disk_available_bytes"
    ∷ "aiops_host_disk_used_percent" ∷ "aiops_container_up" ∷ "aiops_container_cpu_percent"
    ∷ "aiops_container_memory_usage_bytes" ∷ "aiops_container_memory_limit_bytes"
    ∷ "aiops_container_restart_count" ∷ []

unfoldable pub is_registered : String → Bool
is_registered name = contains name registered_metrics

-- Texts, pairs of texts and lists of pairs in the order of Python's tuples.
abbrev pub text_lt : String → String → Bool
text_lt a b = elim (compare a b) [ Ordering.lt ↦ true | _ ↦ false ]

abbrev pub label_lt : String × String → String × String → Bool
label_lt (j, v) (k, w) = text_lt j k || (j == k && text_lt v w)

abbrev pub label_eq : String × String → String × String → Bool
label_eq (j, v) (k, w) = j == k && v == w

unfoldable pub labels_lt : List (String × String) → List (String × String) → Bool
labels_lt [] [] = false
labels_lt [] (y ∷ ys) = true
labels_lt (x ∷ xs) [] = false
labels_lt (x ∷ xs) (y ∷ ys) = label_lt x y || (label_eq x y && labels_lt xs ys)

unfoldable pub labels_eq : List (String × String) → List (String × String) → Bool
labels_eq [] [] = true
labels_eq (x ∷ xs) (y ∷ ys) = label_eq x y && labels_eq xs ys
labels_eq _ _ = false

-- `sorted(metric.labels.items())`
unfoldable pub sorted_labels : LatestMetric → List (String × String)
sorted_labels metric = sorted label_lt metric.labels

-- Two metrics with the same key: name and sorted labels.
unfoldable pub same_series : LatestMetric → LatestMetric → Bool
unfolding sorted_labels labels_eq
same_series a b = a.name == b.name && labels_eq (sorted_labels a) (sorted_labels b)

unfoldable pub put_metric : LatestMetric → List LatestMetric → List LatestMetric
unfolding same_series
put_metric m [] = m ∷ []
put_metric m (x ∷ xs) = if same_series x m then m ∷ xs else x ∷ put_metric m xs

-- `for metric in metrics`, with the test of the registry
unfoldable pub put_all : List LatestMetric → List LatestMetric → List LatestMetric
unfolding put_metric is_registered
put_all [] stored = stored
put_all (m ∷ ms) stored = put_all ms (if is_registered m.name then put_metric m stored else stored)

abbrev pub sequence_or_zero : Option ℕ → ℕ
sequence_or_zero none = 0
sequence_or_zero (some n) = n

-- The last sequence of an agent instance, 0 before its first batch.
unfoldable pub last_sequence : String → String → MetricStore → ℕ
last_sequence node_id instance_id m = sequence_or_zero (lookup_pair node_id instance_id m.sequences)

unfoldable pub accept_batch :
    String → String → ℕ → List LatestMetric → MetricStore → Bool × MetricStore
unfolding put_all last_sequence
accept_batch node_id instance_id sequence metrics m =
    if leb sequence (last_sequence node_id instance_id m) then (false, m) else (
      true,
      record m {
        metrics = put_all metrics m.metrics;
        sequences = insert_pair node_id instance_id sequence m.sequences;
      },
    )

abbrev pub metric_lt : LatestMetric → LatestMetric → Bool
metric_lt a b =
    text_lt a.name b.name || (a.name == b.name && labels_lt (sorted_labels a) (sorted_labels b))

abbrev pub is_some_text : Option String → String → Bool
is_some_text none t = false
is_some_text (some s) t = s == t

abbrev by_asset : Option String → List LatestMetric → List LatestMetric
by_asset none ms = ms
by_asset (some asset_id) ms = keep (λ m. is_some_text (lookup "asset_id" m.labels) asset_id) ms

abbrev by_name : Option String → List LatestMetric → List LatestMetric
by_name none ms = ms
by_name (some name) ms = keep (λ m. m.name == name) ms

abbrev unregistered : Option String → Bool
unregistered none = false
unregistered (some name) = not (is_registered name)

unfoldable pub list_metrics : Option String → Option String → MetricStore → List LatestMetric
unfolding is_registered labels_lt sorted_labels
list_metrics asset_id metric_name m =
    if unregistered metric_name
    then []
    else sorted metric_lt (by_name metric_name (by_asset asset_id m.metrics))
