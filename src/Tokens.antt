-- ===== src/Tokens.antt =====
-- API tokens and the scheduler's lease (app/services/api_token_service.py, app/models/api_token.py,
-- app/services/scheduler_service.py).
pub mod Api
pub mod Lease
pub mod Scopes
