-- ===== src/Host.antt =====
-- src/host: the assistant host outside Grafana.
pub mod Store
pub mod Alerts
pub mod Retention
pub mod Tests
