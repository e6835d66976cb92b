-- ===== src/Laboratory.antt =====
-- domain/fault_scenarios.py: the catalogue of the faults that visitors may try.
pub mod Probe
pub mod Checks
pub mod Patience
pub mod Injector
pub mod Keeping
pub mod Registered
pub mod Route
pub mod Schedule
use aiops_control_lab.Base.{ℕ, String, Bool, ◌==◌, Option, List, [], ◌∷◌, Float, first}
use aiops_control_lab.Domain.Models.{Time}

pub record FaultScenario : Type 0 where
  pub id : String
  pub title : String
  pub asset_id : String
  pub metric_name : String
  pub current_value : Float
  pub baseline : List Float
  pub root_cause_asset : String
  pub root_cause : String
  pub injection_kind : String
  pub expected_remediation : String

pub record LabObservation : Type 0 where
  pub source : String
  pub target : String
  pub healthy : Bool
  pub status_code : ℕ
  pub latency_ms : Float
  pub observed_at : Time

-- The floats are given by their bits: 98.0, 10.0, 10.2, 9.8, 10.1, 9.9, 10.0.
abbrev pub cpu_spike : FaultScenario
cpu_spike = record {
  id = "container_cpu_spike";
  title = "API 容器 CPU 突增";
  asset_id = "lab-api";
  metric_name = "container_cpu_percent";
  current_value = 0x4058_8000_0000_0000;
  baseline =
      0x4024_0000_0000_0000 ∷ 0x4024_6666_6666_6666 ∷ 0x4023_9999_9999_999a ∷ 0x4024_3333_3333_3333
      ∷ 0x4023_cccc_cccc_cccd ∷ 0x4024_0000_0000_0000 ∷ [];
  root_cause_asset = "lab-api";
  root_cause = "实验 API 内的限时计算负载";
  injection_kind = "application_control";
  expected_remediation = "重启 lab-api 并验证容器运行状态";
}

-- `(1.0, 1.0, 1.0, 1.0, 1.0, 1.0)`
abbrev pub healthy_baseline : List Float
healthy_baseline =
    0x3ff0_0000_0000_0000 ∷ 0x3ff0_0000_0000_0000 ∷ 0x3ff0_0000_0000_0000 ∷ 0x3ff0_0000_0000_0000
    ∷ 0x3ff0_0000_0000_0000 ∷ 0x3ff0_0000_0000_0000 ∷ []

abbrev pub dependency_unavailable : FaultScenario
dependency_unavailable = record {
  id = "dependency_unavailable";
  title = "Redis 依赖不可用";
  asset_id = "lab-redis";
  metric_name = "service_health";
  current_value = 0;
  baseline = healthy_baseline;
  root_cause_asset = "lab-redis";
  root_cause = "Agent 停止 Redis 实验容器";
  injection_kind = "container_stop";
  expected_remediation = "重启 lab-redis 并验证容器运行状态";
}

abbrev pub api_container_exit : FaultScenario
api_container_exit = record {
  id = "api_container_exit";
  title = "API 容器退出";
  asset_id = "lab-api";
  metric_name = "service_health";
  current_value = 0;
  baseline = healthy_baseline;
  root_cause_asset = "lab-api";
  root_cause = "Agent 停止 API 实验容器";
  injection_kind = "container_stop";
  expected_remediation = "重启 lab-api 并验证容器运行状态";
}

-- 2.5, and 0.05, 0.06, 0.04, 0.05, 0.05, 0.06
abbrev pub request_latency : FaultScenario
request_latency = record {
  id = "request_latency";
  title = "API 请求延迟";
  asset_id = "lab-api";
  metric_name = "http_request_duration_seconds";
  current_value = 0x4004_0000_0000_0000;
  baseline =
      0x3fa9_9999_9999_999a ∷ 0x3fae_b851_eb85_1eb8 ∷ 0x3fa4_7ae1_47ae_147b ∷ 0x3fa9_9999_9999_999a
      ∷ 0x3fa9_9999_9999_999a ∷ 0x3fae_b851_eb85_1eb8 ∷ [];
  root_cause_asset = "lab-api";
  root_cause = "实验 API 注入固定响应等待";
  injection_kind = "application_control";
  expected_remediation = "重启 lab-api 清除故障状态并验证容器";
}

abbrev pub http_5xx : FaultScenario
http_5xx = record {
  id = "http_5xx";
  title = "API 持续返回 HTTP 5xx";
  asset_id = "lab-api";
  metric_name = "http_5xx_rate";
  current_value = 0x3ff0_0000_0000_0000;
  baseline = 0 ∷ 0 ∷ 0 ∷ 0 ∷ 0 ∷ 0 ∷ [];
  root_cause_asset = "lab-api";
  root_cause = "实验 API 注入受控 503 响应";
  injection_kind = "application_control";
  expected_remediation = "重启 lab-api 清除故障状态并验证容器";
}

abbrev pub fault_scenarios : List FaultScenario
fault_scenarios =
    cpu_spike ∷ dependency_unavailable ∷ api_container_exit ∷ request_latency ∷ http_5xx ∷ []

unfoldable pub get_fault_scenario : String → Option FaultScenario
get_fault_scenario scenario_id = first (λ scenario. scenario.id == scenario_id) fault_scenarios
