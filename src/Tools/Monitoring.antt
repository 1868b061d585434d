-- ===== src/Tools/Monitoring.antt =====
-- tools/monitoring.py: events, flows, metrics and the AIOps datasets.
pub mod Window
pub mod Flows
pub mod Pivot
pub mod Asked
pub mod Get
pub mod Totals
pub mod Talkers
pub mod Pivoted
pub mod Tests
