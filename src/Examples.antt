-- ===== src/Examples.antt =====
-- Tests and instances of the theorems at concrete data.
mod AuditLog
mod AcmeOrders
mod SigningIn
mod Revoking
mod Signing
mod SecondFactor
mod Tokens
mod Authorities
mod AuthorityTree
mod Scheduling
mod Profiling
