-- ===== src/Factors.antt =====
-- The second factor and the second person (app/services/totp_service.py,
-- app/services/dual_control_service.py).
pub mod Totp
pub mod Replay
pub mod DualControl
