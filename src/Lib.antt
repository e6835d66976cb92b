-- ===== src/Lib.antt =====
-- The control plane of the laboratory: its domain model and the services that decide what happens to
-- hosts. Paths are under control-plane/src/aiops_control/ of the repository where nothing else is
-- said.
--
-- Agents send batches of metrics; the monitoring service evaluates rules over the latest values and
-- opens and closes incidents; a signal can open an incident with a plan; an administrator, or a
-- visitor for the laboratory, approves a plan, and the remediation service carries it out through a
-- dispatcher. All of them share one repository.
--
-- Base: shared names, dictionaries, stable sorting, floats as bit patterns, and methods that raise.
-- Domain: domain/. Models, Monitoring and Enums are the dataclasses and enums, Lifecycle the methods of
--   `Incident`, Json and Hash the content hash of a plan.
-- Repository: adapters/memory_repository.py, a record with one dictionary for each of the class.
-- App: the state of the process, identifiers, the clock, and the calls of the dispatcher so far.
-- Policy: application/real_action_policy.py.
-- Remediation: application/remediation_service.py. `approve_and_execute` is split into the checks
--   (`authorize`, `admit`, `expire`) and the execution (`carry_out`: `run_steps`, `verify_recovery`,
--   `settle`, `rollback`, `conclude`).
-- MetricStore: adapters/agent_metric_store.py and application/metric_registry.py; MetricStore.Export
--   and MetricStore.Escape are its text for Prometheus.
-- Scheduler: application/monitoring_scheduler.py and the cycle's lock.
-- Monitoring: application/monitoring_service.py; Monitoring.Defaults its default rules.
-- RateLimit: application/rate_limit_service.py.
-- Ingestion: application/agent_ingestion_service.py.
-- Correlation: application/incident_correlation_service.py.
-- Signals: application/incident_service.py.
-- Gateway: the route that approves a plan (api/routers/incidents.py) and `is_admin` (api/security.py).
-- Evaluation: application/evaluation_service.py.
-- Tools: application/tool_registry.py.
-- SafeDispatcher: adapters/safe_dispatcher.py.
-- Faults: lab/app/fault_state.py, from the repository's root, and Faults.Application lab/app/main.py;
--   Faults.Load is the thread that loads the processor.
-- RootCause: application/root_cause_service.py; RootCause.Dependents the search through the edges.
-- Signing: security/task_signing.py.
-- Laboratory: domain/fault_scenarios.py; Laboratory.Probe is adapters/lab_health_probe.py,
--   Laboratory.Checks adapters/registered_health_checker.py,
--   Laboratory.Injector adapters/http_lab_fault_injector.py, and Laboratory.Route api/routers/lab.py
--   and api/client_identity.py.
-- Dispatch: adapters/http_agent_dispatcher.py.
-- Evidence: application/evidence_collection_service.py.
-- Stream: the messages of `Connect` in adapters/grpc_agent_gateway.py.
-- Diagnosis: application/diagnostic_assistant_service.py and adapters/rule_based_diagnosis.py;
--   Diagnosis.Retrieval is application/hybrid_retrieval_service.py.
-- Detectors: adapters/rolling_zscore.py, ewma_detector.py and seasonal_detector.py.
-- Sre: application/slo_service.py and change_risk_service.py; Sre.Capacity is
--   application/capacity_forecast_service.py.
-- Console: application/console_query_service.py.
-- Results: chains of fallible steps.
-- Tests: the examples, each theorem applied to concrete data.
--
-- A method is a function from the state to a result and a state; what was written before an error
-- stays written. Loops run over lists or count rounds; the search of RootCause.Dependents has fuel for
-- every entry of a set once for its key and once at the start, and it is proved to be enough. Times are microseconds since the
-- first moment of year 1 and raise outside of the years 1 to 9999; the limiter's clock is in ticks.
-- Floats are compared by their bits; their arithmetic and formatting, `json.dumps`, SHA-256, random
-- identifiers, the clock, `fnmatch`, `hmac.compare_digest`, detectors, the dispatcher and the health
-- check are parameters. Each method runs by itself; threads that
-- interleave are not modelled. SQL, HTTP, gRPC and their servers, plugins and the routes that only encode what a
-- service returns are not modelled.
pub mod Base
pub mod Domain
pub mod Repository
pub mod App
pub mod Policy
pub mod Remediation
pub mod MetricStore
pub mod Monitoring
pub mod Faults
pub mod Tools
pub mod SafeDispatcher
pub mod Evaluation
pub mod Tests
pub mod Gateway
pub mod Signals
pub mod Correlation
pub mod Ingestion
pub mod RateLimit
pub mod RootCause
pub mod Signing
pub mod Laboratory
pub mod Evidence
pub mod Stream
pub mod Console
pub mod Detectors
pub mod Sre
pub mod Results
pub mod Diagnosis
pub mod Dispatch
pub mod Scheduler
pub mod Texts
