-- ===== src/Audit.antt =====
-- The audit log's hash chain (app/services/audit_chain.py, app/models/audit_log.py).
pub mod Row
pub mod Seal
pub mod Verify
pub mod Chain
pub mod Walk
pub mod Intact
pub mod Sealing
pub mod Kept
pub mod SealVerify
pub mod Tamper
pub mod Log
pub mod Prune
pub mod Retention
pub mod PruneVerify
pub mod PruneKeeps
pub mod Blind
