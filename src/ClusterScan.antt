-- ===== src/ClusterScan.antt =====
-- internal/controller/clusterscan_controller.go: the controller that scans the pods of a scope, reports
-- what it finds as ScanReports, and keeps as many of these as the history limit allows.
pub mod Model
pub mod Names
pub mod Execute
pub mod History
pub mod Targets
pub mod Reconcile
mod Tests
