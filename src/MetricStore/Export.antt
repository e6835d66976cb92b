-- ===== src/MetricStore/Export.antt =====
-- `prometheus_text` of adapters/agent_metric_store.py and the definitions of
-- application/metric_registry.py.
pub mod Complete
use Prim.Native.String.{◌++◌}
use aiops_control_lab.Base.{
  String, Bool, true, false, ◌==◌, Option, none, some, List, [], ◌∷◌, ◌++◌ as list_append, map,
  first, Float, Dict, lookup, insert, Result, ok, err, key_error, if◌then◌else◌,
}
use aiops_control_lab.Results.{◌>>=◌}
use aiops_control_lab.Texts.{joined_by}
use aiops_control_lab.Domain.Monitoring.{LatestMetric}
use aiops_control_lab.App.{MetricStore}
use aiops_control_lab.MetricStore.{sorted_labels, list_metrics}
use aiops_control_lab.MetricStore.Escape.{escape_label}

pub record MetricDefinition : Type 0 where
  pub name : String
  pub display_name : String
  pub unit : String
  pub description : String

abbrev metric : String → String → String → String → MetricDefinition
metric name display_name unit description = record {
  name = name;
  display_name = display_name;
  unit = unit;
  description = description;
}

unfoldable pub metric_definitions : List MetricDefinition
metric_definitions =
    metric "aiops_host_load1" "主机一分钟负载" "load" "Linux 一分钟平均负载"
    ∷ metric "aiops_host_cpu_percent" "主机 CPU" "percent" "相邻采集周期 CPU 使用率"
    ∷ metric "aiops_host_memory_total_bytes" "主机总内存" "bytes" "Linux 可见总内存"
    ∷ metric "aiops_host_memory_available_bytes" "主机可用内存" "bytes" "Linux MemAvailable"
    ∷ metric "aiops_host_memory_available_percent" "主机可用内存比例" "percent" "可用内存占总内存比例"
    ∷ metric "aiops_host_disk_total_bytes" "根盘总容量" "bytes" "根文件系统总容量"
    ∷ metric "aiops_host_disk_available_bytes" "根盘可用容量" "bytes" "非特权用户可用容量"
    ∷ metric "aiops_host_disk_used_percent" "根盘使用率" "percent" "根文件系统已用容量比例"
    ∷ metric "aiops_container_up" "容器运行状态" "boolean" "运行中为 1，否则为 0"
    ∷ metric "aiops_container_cpu_percent" "容器 CPU" "percent" "Docker 非流式 stats CPU"
    ∷ metric "aiops_container_memory_usage_bytes" "容器内存" "bytes" "Docker 当前内存使用"
    ∷ metric "aiops_container_memory_limit_bytes" "容器内存上限" "bytes" "Docker 内存限制"
    ∷ metric "aiops_container_restart_count" "容器重启次数" "count" "Docker 累计重启次数"
    ∷ []

abbrev or_key_error : Option MetricDefinition → Result MetricDefinition
or_key_error none = err key_error
or_key_error (some definition) = ok definition

-- `REGISTERED_METRICS[name]`; no two definitions have one name.
unfoldable pub definition_of : String → Result MetricDefinition
unfolding metric_definitions
definition_of name = or_key_error (first (λ d. d.name == name) metric_definitions)

abbrev or_nothing : Option (List LatestMetric) → List LatestMetric
or_nothing none = []
or_nothing (some metrics) = metrics

-- the loop that fills `grouped`
unfoldable pub group : List LatestMetric → Dict (List LatestMetric) → Dict (List LatestMetric)
group [] d = d
group (m ∷ metrics) d =
    group metrics (insert m.name (list_append (or_nothing (lookup m.name d)) (m ∷ [])) d)

abbrev braced : String → String
braced labels = if labels == "" then "" else "{" ++ (labels ++ "}")

module _ (show : Float → String) where
  -- the line of a metric; `show` prints its value.
  unfoldable pub metric_line : String → LatestMetric → String
  unfolding sorted_labels joined_by escape_label
  metric_line name m =
      let labels = joined_by "," (
        map (λ (l : String × String). l.0 ++ ("=\"" ++ (escape_label l.1 ++ "\"")))
          (sorted_labels m)) in
      name ++ (braced labels ++ (" " ++ show m.value))

  -- the loop over the groups
  unfoldable pub group_lines : Dict (List LatestMetric) → Result (List String)
  unfolding definition_of metric_line
  group_lines [] = ok []
  group_lines ((name, metrics) ∷ d) = definition_of name >>= λ definition.
      group_lines d >>= λ lines. ok (
        ("# HELP " ++ (name ++ (" " ++ definition.description)))
        ∷ ("# TYPE " ++ (name ++ " gauge"))
        ∷ list_append (map (metric_line name) metrics) lines)

  unfoldable pub prometheus_text : MetricStore → Result String
  unfolding group_lines group list_metrics
  prometheus_text m = group_lines (group (list_metrics none none m) []) >>= λ lines.
      ok (joined_by "\n" lines ++ "\n")
