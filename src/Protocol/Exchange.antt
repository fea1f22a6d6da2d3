-- ===== src/Protocol/Exchange.antt =====
-- A request and its answer on their way between the sessions of the two sides, from the writer of
-- src/protocol/session.rs to the application at the other end.
pub mod Slots
pub mod Peers
pub mod Flow
pub mod Welcome
pub mod Payloads
pub mod Readable
pub mod Honest
pub mod Reading
pub mod Requests
pub mod Answers
