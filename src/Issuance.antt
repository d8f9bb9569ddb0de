-- ===== src/Issuance.antt =====
-- Issuing a certificate from a CSR (app/services/cert_service.py, app/services/policy.py).
pub mod Policy
pub mod Claims
pub mod Once
