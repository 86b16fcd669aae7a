-- ===== src/SecurityPolicy.antt =====
-- internal/controller/securitypolicy_controller.go: the controller that scans the pods of a policy,
-- hands the findings to the correlator, notifies the channels and writes the policy's status.
pub mod Model
pub mod Scan
pub mod Targets
pub mod Ingest
pub mod Notify
pub mod Reconcile
mod Tests
