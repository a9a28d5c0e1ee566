-- ===== src/Retention.antt =====
-- retention/services/retention.service.ts: what the daily job deletes. A `while (hasMore)` loop takes
-- fuel. What the database deletes together with a row, by its foreign keys, is left out.
pub mod Store
pub mod Batches
pub mod Policies
pub mod Loop
pub mod Outcome
pub mod AuditLogs
pub mod Evaluations
pub mod Experiments
pub mod Invitations
pub mod Counts
pub mod Report
