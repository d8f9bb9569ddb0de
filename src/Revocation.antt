-- ===== src/Revocation.antt =====
-- Revocation and CRLs (app/services/crl_service.py).
pub mod Store
pub mod Crl
pub mod Cascade
pub mod Listed
