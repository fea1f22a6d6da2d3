-- ===== src/Protocol/Session/Invariant.antt =====
-- Invariants of the sessions that a new one can become, one module each, after src/protocol/session.rs.
pub mod RequestIds
pub mod Operations
pub mod Kinds
pub mod Settling
pub mod Settled
pub mod Results
pub mod Suited
pub mod Bytes
pub mod Accounting
pub mod ByteLimit
pub mod Routes
