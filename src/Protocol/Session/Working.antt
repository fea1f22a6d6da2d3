-- ===== src/Protocol/Session/Working.antt =====
-- The passes of a session's worker loops: `run_writer` and `run_deadlines` of
-- src/protocol/session.rs. What the transport's send returns is an argument.
use wire_rs.Base.{
  ℕ, Bool, true, false, Option, none, some, List, [], ◌∷◌, length, min, ◌==◌, if◌then◌else◌,
}
use wire_rs.Protocol.Errors.{
  Error, closed, timeout, unexpected_response, wrong_direction, malformed, transport, remote,
  too_large, request_limit_exceeded, byte_limit_exceeded, TransportError,
}
use wire_rs.Protocol.Envelope.{Schema, Encoded, encoded, encode, message, error}
use wire_rs.Protocol.Envelope
use wire_rs.Protocol.Session.{
  Session, State, Operation, Outgoing, Body, request, reply, success, refusal, opened, ended,
}
use wire_rs.Protocol.Session.Ending.{expire, close}
use wire_rs.Protocol.Session.Writer.{record_write, forget_request}
pub mod Writing
pub mod Sleeping

-- The body that `run_writer` encodes.
abbrev pub body_of : Body → Envelope.Body
body_of (request m) = message m
body_of (reply id (success m)) = message m
body_of (reply id (refusal code)) = error code

-- The result of encoding and, if there is an encoding, of sending it.
abbrev pub outcome_of : Encoded → Option TransportError → Option Error
outcome_of (encoded bytes) none = none
outcome_of (encoded bytes) (some e) = some (transport e)
outcome_of (Envelope.refused e) sent = some e

-- Only a request that was not encoded is forgotten.
abbrev pub forget : Body → ℕ → Session → Session
forget (request m) id s = forget_request id s
forget (reply j a) id s = s

abbrev refuse : Error → ℕ → Outgoing → ℕ → Session → Session × Bool
refuse e id m now s = (record_write m.key (some e) now (forget m.body id s), true)

-- What `run_writer` does with the result: a wire failure closes the session and ends the loop, and
-- any other result goes to the operation. The second part says whether the loop goes on.
unfoldable pub conclude : Option Error → ℕ → Outgoing → ℕ → Session → Session × Bool
unfolding record_write forget_request close
conclude none id m now s = (record_write m.key none now s, true)
conclude (some (transport e)) id m now s = (close (transport e) now s, false)
conclude (some closed) id m now s = refuse closed id m now s
conclude (some timeout) id m now s = refuse timeout id m now s
conclude (some unexpected_response) id m now s = refuse unexpected_response id m now s
conclude (some wrong_direction) id m now s = refuse wrong_direction id m now s
conclude (some malformed) id m now s = refuse malformed id m now s
conclude (some (remote code)) id m now s = refuse (remote code) id m now s
conclude (some (too_large n)) id m now s = refuse (too_large n) id m now s
conclude (some (request_limit_exceeded n)) id m now s = refuse (request_limit_exceeded n) id m now s
conclude (some (byte_limit_exceeded n)) id m now s = refuse (byte_limit_exceeded n) id m now s

module _ (schema : Schema) (encode_buffer : ℕ → ℕ) where
  -- The body of the loop of `run_writer` for the message that `next_outgoing` returned, where no other
  -- thread comes in between.
  unfoldable pub write_message : Option TransportError → ℕ → Outgoing → ℕ → Session → Session × Bool
  unfolding conclude
  write_message sent id m now s =
      conclude (outcome_of (encode schema encode_buffer s.side id (body_of m.body)) sent) id m now s

-- How a pass of the deadline worker ends: it starts again after running callbacks, it returns as the
-- session is closed, or it sleeps until a deadline or a change.
pub data Rest : Type 0 where
  again returns : Rest
  sleeps : Option ℕ → Rest

abbrev sooner : ℕ → Option ℕ → Option ℕ
sooner d none = some d
sooner d (some e) = some (min d e)

abbrev pub earliest : List (ℕ × Operation) → Option ℕ
earliest [] = none
earliest ((k, op) ∷ ops) = sooner op.deadline (earliest ops)

abbrev pub rest_at : State → Session → Session × Rest
rest_at (ended e) s = (s, returns)
rest_at (opened q) s = (s, sleeps (earliest q.operations))

-- One pass of the loop of `run_deadlines`
unfoldable pub deadline_pass : ℕ → Session → Session × Rest
unfolding expire
deadline_pass now s =
    let s' : Session = expire now s in
    if length s'.ledger.callbacks == length s.ledger.callbacks
    then rest_at s'.state s'
    else (s', again)
