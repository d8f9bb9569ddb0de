-- ===== src/Scheduler.antt =====
-- The jobs and the tick of app/services/scheduler_service.py; its lease is in Tokens.
pub mod Expiry
pub mod OnceEach
pub mod Tick
pub mod Isolated
pub mod Exclusive
