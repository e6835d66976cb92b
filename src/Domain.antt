-- ===== src/Domain.antt =====
-- control-plane/src/aiops_control/domain: the entities, their status enumerations and transitions.
pub mod Enums
pub mod Models
pub mod Monitoring
pub mod Lifecycle
pub mod Json
pub mod Hash
