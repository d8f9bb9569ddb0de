-- ===== src/Profiles.antt =====
-- Certificate profiles (app/services/profile_service.py, app/models/certificate_profile.py).
pub mod Enforce
pub mod Permits
pub mod Complies
pub mod Manage
pub mod Sound
pub mod Survive
