-- ===== src/Transport.antt =====
-- The transport of src/transport/: frames on the byte stream, the stream's loops and its shutdown.
pub mod Framing
pub mod Closer
pub mod Stream
pub mod Outbound
pub mod Fault
pub mod Handshake
pub mod Server
pub mod Client
pub mod Agreement
pub mod Output
pub mod Input
mod Tests
mod SessionTests
