-- ===== src/Lib.antt =====
-- A verification library for wire-rs, the encrypted protocol between an Ark and its host.
--
-- The program has two layers over a byte stream. The transport (src/transport/) cuts the stream
-- into frames, seals packets and makes handshakes; the protocol (src/protocol/) runs one session
-- over a transport, in which both sides send requests and answer the peer's. A reader thread hands
-- each message to the session, a writer thread takes the session's queued messages one by one, a
-- worker expires operations at their deadlines, and application threads submit messages, wait on
-- promises and answer requests. All of them meet under the lock of `SessionInner`. src/memory/ has
-- streams in memory.
--
-- The files and the code that they model:
--   Base: shared names, lists and maps over the native numbers, with their laws.
--   Protocol/Ids, Protocol/Errors: src/protocol/envelope.rs and error.rs: sides, parities, kinds, errors.
--   Protocol/Promises: src/protocol/promise.rs and the byte charges of envelope.rs. A ledger lists the
--     promises of a session; `send`, `notify`, `drop_promise` and `wait_result` are the operations of
--     `ResultSender` and `Promise`, and `reserve` and `release` those of `ByteCharge`. A charge is
--     dropped outside the lock: until its `release`, the bytes of what was taken out are `freed`.
--   Protocol/Envelope: the coding of src/protocol/envelope.rs: `encode`, `decode` and `decode_header`,
--     which reads a message's header without its content. Envelope/Coding has its proofs.
--   Protocol/Session: `State` and `SessionInner` of src/protocol/session.rs, and src/protocol/operation.rs.
--     Session/Ending has `fail`, `expire`, `close` and the limits; Session/Queueing `request`, `reply`,
--     `enqueue` and `autoreply`; Session/Incoming `handle_message`, `admit_request`, `complete_response`
--     and `recv`; Session/Writer `next_outgoing` and `record_write`. Each is one critical section under
--     the lock, and Session/Steps has their interleavings as a step relation with reachability.
--     Session/Retrieval has `recv` and the two `Promise::wait` with the decoding of what they take,
--     and Session/Working the loop bodies of `run_writer` and `run_deadlines`. Session/Invariant,
--     Settled, Promised, Unsettled, Delivery, Deadlines, Working/Writing and Working/Sleeping hold
--     the proofs.
--     Session/Handling shows that handling a message consists of such steps.
--   Protocol/Exchange: the way of a request and of its answer between the sessions of both sides.
--     Exchange/Peers has both sessions with the messages on their way as a step relation.
--   Protocol/Client: `connect` and `run_reader` of src/protocol/session.rs over the transport's client.
--   Protocol/Handles: src/protocol/requester.rs, responder.rs and closer.rs.
--   Protocol/Server: src/protocol/server.rs, which has one session at a time: its state, its reader
--     and the threads that use it as a step relation. Server/Single has the proofs.
--   Transport/Framing: `FrameReader` of src/transport/framing.rs, with `next_frame` over a buffer with its
--     offset, its search position and its discard flag, and `next_packet`; Framing/Writer has `FrameWriter`.
--   Transport/Stream, Transport/Closer, Transport/Input, Transport/Output: `Stream`, `Closer`,
--     `ReadHalf::read` and `WriteHalf::write` of src/transport/stream.rs.
--   Transport/Outbound: src/transport/outbound.rs, the output with the session that it is bound to;
--     Outbound/Sealing src/transport/sealing.rs, and Outbound/Order the threads that send, each with a
--     `Sender` of src/transport/sender.rs, as a step relation; Outbound/Order/Sealed and Sequence have
--     its proofs. Outbound/Others has what other threads do with it while its owner is in `recv`.
--   Transport/Handshake: src/transport/handshake.rs, with the interface of the cryptography.
--     Transport/Server and Transport/Client: src/transport/server.rs and client.rs, with `recv`, the
--     handshakes and the end of a session. Server/Events and Client/Sessions hold their proofs, and
--     Transport/Agreement those of a handshake of both. Transport/Fault: `Error` of src/transport/mod.rs.
--   Memory/Pipe, Memory/Duplex: src/memory/mod.rs. One pass of a blocking call is a function that returns
--     its result or that it waits.
--
-- An instant is a number, and a reading of the clock is an argument. A hash map is an association
-- list, and a set a list; a message that the session does not read is a number. Operation keys,
-- which are addresses in the program, are numbers that are never used again. `usize` and `u64` are
-- 64 bits wide, and the sums that the code checks are checked against 2 ^ 64.
--
-- Loops are structural: a frame's loop recurs on the reads that the adapter makes, a stream's loop
-- on its turns, and a handshake's on the packets that come in. Reading a pipe to its end takes fuel,
-- and one more than the pipe's bytes is enough; so do the transport server's `recv` and the
-- client's reader, and one more than the packets that come in is enough; the search for a field
-- takes the bytes as fuel. A loop that waits on a condition is its passes, one step each.
--
-- Parameters of the model are the search `memchr` with what it finds; COBS, whose encodings have
-- no zero, are not empty, fit a computed size and decode to what was encoded; the code that the
-- schema generates, which decodes what it encodes and finds the fields of its encodings; the
-- cryptography, which opens what it seals and pairs the contexts that it agrees on; and the checked
-- sum of an instant and a duration.
--
-- Not modelled are the creation of threads, the memory that handles share, log lines, the drawing of
-- random numbers and keys, the clocks that handles keep, and the generated schema, which is a
-- parameter.
pub mod Base
pub mod Memory
pub mod Protocol
pub mod Transport
