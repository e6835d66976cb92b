-- ===== src/Monitoring/Defaults.antt =====
-- `default_monitor_rules` and `ensure_default_rules` of application/monitoring_service.py.
use aiops_control_lab.Base.{
  ◌≡◌, refl, Bool, Bool-cases, true, false, inl, inr, List, [], ◌∷◌, is_empty, values, count,
  count-insert-pos, count-sorted, ◌≤◌, arith, if◌then◌else◌,
}
use aiops_control_lab.Domain.Monitoring.{MonitorRule}
use aiops_control_lab.Repository.{Repository, save_monitor_rule, list_monitor_rules, text_lt}

unfoldable pub default_monitor_rules : List MonitorRule
default_monitor_rules =
    (record {
      id = "host-cpu-high";
      name = "主机 CPU 持续过高";
      metric_name = "aiops_host_cpu_percent";
      asset_selector = "host/tencent-lab-01";
      operator = "gt";
      threshold = 0x4055_4000_0000_0000;
      consecutive_cycles = 5;
      recovery_cycles = 3;
      severity = "high";
      window_seconds = 300;
      enabled = true;
    })
    ∷ (record {
      id = "host-memory-low";
      name = "主机可用内存不足";
      metric_name = "aiops_host_memory_available_percent";
      asset_selector = "host/tencent-lab-01";
      operator = "lt";
      threshold = 0x4024_0000_0000_0000;
      consecutive_cycles = 5;
      recovery_cycles = 3;
      severity = "high";
      window_seconds = 300;
      enabled = true;
    })
    ∷ (record {
      id = "host-disk-warning";
      name = "根盘使用率偏高";
      metric_name = "aiops_host_disk_used_percent";
      asset_selector = "host/tencent-lab-01";
      operator = "gt";
      threshold = 0x4054_0000_0000_0000;
      consecutive_cycles = 1;
      recovery_cycles = 3;
      severity = "medium";
      window_seconds = 60;
      enabled = true;
    })
    ∷ (record {
      id = "host-disk-critical";
      name = "根盘使用率严重";
      metric_name = "aiops_host_disk_used_percent";
      asset_selector = "host/tencent-lab-01";
      operator = "gt";
      threshold = 0x4056_8000_0000_0000;
      consecutive_cycles = 1;
      recovery_cycles = 3;
      severity = "high";
      window_seconds = 60;
      enabled = true;
    })
    ∷ (record {
      id = "container-down";
      name = "真实容器停止";
      metric_name = "aiops_container_up";
      asset_selector = "docker/devops-lab/*";
      operator = "lt";
      threshold = 0x3ff0_0000_0000_0000;
      consecutive_cycles = 2;
      recovery_cycles = 3;
      severity = "high";
      window_seconds = 120;
      enabled = true;
    })
    ∷ (record {
      id = "container-restart-loop";
      name = "容器十分钟频繁重启";
      metric_name = "aiops_container_restart_count";
      asset_selector = "docker/devops-lab/*";
      operator = "increase_gte";
      threshold = 0x4008_0000_0000_0000;
      consecutive_cycles = 1;
      recovery_cycles = 3;
      severity = "high";
      window_seconds = 600;
      enabled = true;
    })
    ∷ []

-- `for rule in default_monitor_rules(): save_monitor_rule(rule)`
unfoldable pub save_all : List MonitorRule → Repository → Repository
save_all [] r = r
save_all (rule ∷ rules) r = save_all rules (save_monitor_rule rule r)

unfoldable pub ensure_default_rules : Repository → Repository
unfolding save_all
ensure_default_rules r =
    if is_empty (list_monitor_rules r) then save_all default_monitor_rules r else r

abbrev every : MonitorRule → Bool
every rule = true

save_all-count :
    (rules : List MonitorRule) (r : Repository)
    → 1 ≤ count every (values r.monitor_rules)
    → 1 ≤ count every (values (save_all rules r).monitor_rules)
unfolding save_all save_monitor_rule
save_all-count [] r h = h
save_all-count (rule ∷ rules) r h =
    save_all-count rules (save_monitor_rule rule r)
      (count-insert-pos every rule.id rule r.monitor_rules refl)

count-is_empty : (rules : List MonitorRule) → 1 ≤ count every rules → is_empty rules ≡ false
count-is_empty [] h = absurd (omega arith)
count-is_empty (x ∷ xs) h = refl

save_all-pos :
    (rules : List MonitorRule) (r : Repository)
    → is_empty rules ≡ false
    → 1 ≤ count every (values (save_all rules r).monitor_rules)
unfolding save_all save_monitor_rule
save_all-pos [] r h = absurd (cc h)
save_all-pos (rule ∷ rules) r h =
    save_all-count rules (save_monitor_rule rule r)
      (count-insert-pos every rule.id rule r.monitor_rules refl)

some_default : is_empty default_monitor_rules ≡ false
unfolding default_monitor_rules
some_default = refl

defaults_stored :
    (r : Repository) → is_empty (list_monitor_rules (save_all default_monitor_rules r)) ≡ false
unfolding list_monitor_rules
defaults_stored r = count-is_empty _ (
    rw
      (count-sorted (λ (a b : MonitorRule). text_lt a.id b.id) every
        (values (save_all default_monitor_rules r).monitor_rules))
      (save_all-pos default_monitor_rules r some_default))

-- Calling `ensure_default_rules` a second time changes nothing: neither the rules that it wrote nor
-- those that were there are written again.
ensure_default_rules_twice :
    (r : Repository) → ensure_default_rules (ensure_default_rules r) ≡ ensure_default_rules r
unfolding ensure_default_rules
ensure_default_rules_twice r = elim (Bool-cases (is_empty (list_monitor_rules r))) [
  | inl none_yet ↦ rw none_yet (rw (defaults_stored r) refl)
  | inr some_there ↦ rw some_there (rw some_there refl)
]
