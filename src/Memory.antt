-- ===== src/Memory.antt =====
-- The in-memory streams of src/memory/mod.rs: the bounded buffer of one direction, and the two
-- endpoints over two such buffers. A blocking call is one attempt under the buffer's lock, which
-- either returns or says that the caller waits; a wake-up repeats the attempt.
pub mod Pipe
pub mod Duplex
mod Tests
