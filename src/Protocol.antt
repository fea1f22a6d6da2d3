-- ===== src/Protocol.antt =====
-- The request and reply protocol of src/protocol/: envelopes, their identifiers, promises, and the
-- session that routes messages between them.
pub mod Ids
pub mod Errors
pub mod Promises
pub mod Envelope
pub mod Session
pub mod Exchange
pub mod Server
pub mod Client
pub mod Handles
mod Tests
mod ExchangeTests
mod ClientTests
