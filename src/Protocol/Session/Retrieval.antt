-- ===== src/Protocol/Session/Retrieval.antt =====
-- What the application takes out of a session: `IncomingEnvelope::decode` of
-- src/protocol/envelope.rs, `SessionInner::recv` of src/protocol/session.rs and the two
-- `Promise::wait` of src/protocol/promise.rs. A call that blocks is one attempt, which may have to wait.
use wire_rs.Base.{ℕ, Option, none, some, List}
use wire_rs.Protocol.Ids.{Side}
use wire_rs.Protocol.Errors.{Error, malformed, remote}
use wire_rs.Protocol.Promises.{
  Header, Envelope, Ledger, Outcome, response, written, failure, release, wait_result,
}
use wire_rs.Protocol.Envelope.{
  Schema, Decoded, decoded, invalid, message, error, decode, decode_header, header_of, refuses,
}
use wire_rs.Protocol.Session.{Session}
use wire_rs.Protocol.Session.Ending.{expire, close}
use wire_rs.Protocol.Session.Queueing.{autoreply, unanswered}
use wire_rs.Protocol.Session.Incoming.{Received, taken, over, waits, receive}
pub mod Suiting

-- `Result<Message, Error>`
pub data Content : Type 0 where
  content : ℕ → Content
  fails : Error → Content

-- How an attempt of `recv` ends; a request comes with the id that its responder answers.
pub data Request : Type 0 where
  requested : ℕ → ℕ → Request
  refused : Error → Request
  none_yet : Request

-- How an attempt of `wait` ends; `unsuited` is the panic on a result of the other kind.
pub data Waited {ℓ} (A : Type ℓ) : Type ℓ where
  waited : A → Waited A
  unsettled unsuited : Waited A

-- `Promise<()>::wait`, which first expires what is due, and consumes the promise.
abbrev written_of : Session → Option (Outcome × Ledger) → Session × Waited (Option Error)
written_of s none = (s, unsettled)
written_of s (some (response e, l)) = (record s { ledger = l }, unsuited)
written_of s (some (written, l)) = (record s { ledger = l }, waited none)
written_of s (some (failure e, l)) = (record s { ledger = l }, waited (some e))

unfoldable pub wait_written : ℕ → ℕ → Session → Session × Waited (Option Error)
unfolding expire wait_result
wait_written i now s = let s' : Session = expire now s in written_of s' (wait_result i s'.ledger)

module _ (schema : Schema) (encode_buffer : ℕ → ℕ) where
  -- `Side::decode_header`, whose error is always that the envelope is malformed.
  abbrev pub header_in : Side → List ℕ → Option Header
  header_in side bytes = elim (decode_header schema encode_buffer side bytes) [
    | refuses e ↦ none
    | header_of h ↦ some h
  ]

  abbrev pub content_of : Decoded → ℕ → Session → Session × Content
  content_of (decoded id (message m)) now s = (s, content m)
  content_of (decoded id (error code)) now s = (s, fails (remote code))
  content_of invalid now s = (close malformed now s, fails malformed)

  -- `IncomingEnvelope::decode` after the drop of its charge. A malformed payload closes the session.
  unfoldable pub open_envelope : Envelope → ℕ → Session → Session × Content
  unfolding close
  open_envelope e now s = content_of (decode schema encode_buffer s.side e.bytes) now s

  abbrev waited_for : Session × Content → Session × Waited Content
  waited_for (s, c) = (s, waited c)

  abbrev answer_of : ℕ → Session → Option (Outcome × Ledger) → Session × Waited Content
  answer_of now s none = (s, unsettled)
  answer_of now s (some (response e, l)) =
      waited_for (open_envelope e now (record s { ledger = release e.charge l }))
  answer_of now s (some (written, l)) = (record s { ledger = l }, unsuited)
  answer_of now s (some (failure e, l)) = (record s { ledger = l }, waited (fails e))

  -- `Promise<Message>::wait`, taking the whole message: the clock is read for the expiry, and again if
  -- the session is closed.
  unfoldable pub wait_message : ℕ → ℕ → ℕ → Session → Session × Waited Content
  unfolding expire wait_result release open_envelope
  wait_message i now later s =
      let s' : Session = expire now s in answer_of later s' (wait_result i s'.ledger)

  module _ (checked_add : ℕ → ℕ → Option ℕ) where
    -- Where decoding fails, the responder is dropped.
    abbrev handed_out : ℕ → ℕ → ℕ → Session × Content → Session × Request
    handed_out id now later (s, content m) = (s, requested id m)
    handed_out id now later (s, fails e) =
        (autoreply checked_add id unanswered now later s, refused e)

    abbrev request_in : ℕ → ℕ → ℕ → Session × Received → Session × Request
    request_in closing now later (s, taken id e) =
        handed_out id now later
          (open_envelope e closing (record s { ledger = release e.charge s.ledger }))
    request_in closing now later (s, over e) = (s, refused e)
    request_in closing now later (s, waits) = (s, none_yet)

    -- `SessionInner::recv`: the clock's readings are those of closing the session and of the automatic
    -- reply.
    unfoldable pub recv : ℕ → ℕ → ℕ → Session → Session × Request
    unfolding receive release open_envelope autoreply
    recv closing now later s = request_in closing now later (receive s)
