-- ===== src/Acme.antt =====
-- The ACME server (app/services/acme/service.py, app/models/acme.py).
pub mod Types
pub mod Refresh
pub mod Challenges
pub mod Granted
pub mod GrantedOps
pub mod Orders
pub mod Finalize
pub mod Nonces
pub mod Names
pub mod Proofs
pub mod Follows
pub mod Operations
pub mod Lifecycle
pub mod Issuance
