-- ===== src/Report.antt =====
-- internal/hosted/report: who may read a published report.
pub mod Access
