-- ===== src/Tests/Tooling.antt =====
-- A fault of the laboratory, an evaluation of a detector, and the proposal of a tool call.
use aiops_control_lab.Base.{
  Result, ℕ, ◌+◌, ◌*◌, Bool, arith, lookup, insert, ◌≡◌, refl, ◌==◌, err, http_unavailable, true,
  false, some, List, [], ◌∷◌, Float, ok,
}
use aiops_control_lab.Domain.Monitoring.{DetectionResult}
use aiops_control_lab.Domain.Enums.{RiskLevel}
use aiops_control_lab.Faults.{FaultState, active, is_supported, activate}
use aiops_control_lab.Faults.Application.{LabService, Process, answered, activate_fault, work}
use aiops_control_lab.Faults.Load.{end_cpu_load, run_cpu_load, Advances, Ends, run_cpu_load-Ends}
use aiops_control_lab.Faults.Outage.{for_work, for_health, Outage, activate_fault-Outage}
use aiops_control_lab.Evaluation.{evaluate}
use aiops_control_lab.Evaluation.Totals.{Accounts, evaluate-Accounts}
use aiops_control_lab.Tools.{Registry, RawCall, validate_call, Plans, validate_call-Plans}
use aiops_control_lab.Tests.{floats}

abbrev quiet : FaultState
quiet = record { deadlines = []; cpu_worker_running = false; workers = 0 }

abbrev redis : LabService
redis = record {
  control_token = "secret";
  compare_digest = λ a b. ok (a == b);
  ping = λ n. answered;
  incr = λ n. some n;
}

abbrev process : Process
process = record { faults = quiet; asked = 7; slept = 0 }

-- A request for work and a health check before it, a second and half a minute into the fault.
activate_fault-Outage_example :
    Outage redis "secret" 60 1_000 process
      (for_health 1_000_000 1_000_000 ∷ for_work 30_000_000 30_000_000 ∷ [])
      60_000_999
      60_000_999
      (activate_fault redis "secret" "http_5xx" 60 1_000 process)
activate_fault-Outage_example =
    activate_fault-Outage redis "secret" 60 1_000 process
      (for_health 1_000_000 1_000_000 ∷ for_work 30_000_000 30_000_000 ∷ []) 60_000_999 60_000_999
      (ground arith, (ground arith, tt))

-- The fault lasts from the microsecond 1000 for a minute.
work_example :
    ((work redis 1_000 60_000_999 (activate_fault redis "secret" "http_5xx" 60 1_000 process).1).0
      ≡ err http_unavailable)
    × ((work redis 1_000 60_001_000 (activate_fault redis "secret" "http_5xx" 60 1_000 process).1).0
        ≡ ok 7)
unfolding work activate_fault active lookup is_supported activate insert
work_example = (refl, refl)

-- The fault ends 300 milliseconds after the first test of a clock that is exact.
abbrev loaded : FaultState
loaded = record {
  deadlines = ("container_cpu_spike", 301_000) ∷ [];
  cpu_worker_running = true;
  workers = 1;
}

abbrev exact : ℕ → ℕ
exact n = 1_000 + n * 150_000

exact-Advances : Advances exact
exact-Advances n = omega arith

run_cpu_load-Ends_example : Ends exact 301_000 0 loaded (run_cpu_load exact 3 0 loaded)
unfolding lookup
run_cpu_load-Ends_example =
    run_cpu_load-Ends exact 301_000 2 0 loaded exact-Advances refl (ground arith)

abbrev ending : FaultState
ending = record { deadlines = []; cpu_worker_running = true; workers = 1 }

-- If the fault is put on again after the last test of the loop and before the thread clears its flag,
-- then it is active without a thread.
late_activation :
    ((active "container_cpu_spike" 5_000 ending).0 ≡ false)
    × ((end_cpu_load (activate "container_cpu_spike" 60 5_000 ending).1).workers ≡ 0)
    × ((active "container_cpu_spike" 6_000
          (end_cpu_load (activate "container_cpu_spike" 60 5_000 ending).1)).0
        ≡ true)
unfolding activate active is_supported lookup insert end_cpu_load
late_activation = (refl, refl, refl)

abbrev samples : List Float
samples =
    0x3ff0_0000_0000_0000 ∷ 0x3ff0_0000_0000_0000 ∷ 0x3ff0_0000_0000_0000 ∷ 0x4024_0000_0000_0000
    ∷ []

abbrev always : List Float → Float → Result DetectionResult
always history x = ok (record { anomalous = true; score = x; reason = "" })

abbrev labels : List Bool
labels = false ∷ false ∷ false ∷ true ∷ []

evaluate-Accounts_example :
    Accounts floats always samples labels 2 (evaluate floats "high" always samples labels 2 "v1")
evaluate-Accounts_example = evaluate-Accounts floats always "high" samples labels 2 "v1"

abbrev registry : Registry
registry = record {
  definitions =
      (
        "restart",
        record {
          name = "restart";
          description = "";
          required_arguments = "grace_seconds" ∷ [];
          allowed_arguments = "grace_seconds" ∷ [];
          risk = RiskLevel.medium;
        },
      )
      ∷ [];
  target_prefixes = "lab-" ∷ [];
}

abbrev proposal : RawCall
proposal = record {
  tool_name = "restart";
  target = "lab-web";
  arguments = some (("grace_seconds", "10") ∷ []);
}

validate_call-Plans_example : Plans registry proposal (validate_call registry proposal)
validate_call-Plans_example = validate_call-Plans registry proposal
