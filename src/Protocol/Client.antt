-- ===== src/Protocol/Client.antt =====
-- The client of the protocol: `connect` and `run_reader` of src/protocol/session.rs over the client of the
-- transport. Of the session's other threads, what they do to the outbound side of the transport while
-- the reader is in `recv` is a parameter; what they do to the session between two passes is left out.
use wire_rs.Base.{ℕ, zero, suc, Option, none, some, List, length}
use wire_rs.Protocol.Ids
use wire_rs.Protocol.Errors.{
  Error, transport, TransportError, frame_too_large, packet_too_large, invalid_attestation,
  handshake_failed, encryption_failed, session_reset, recv_failed, send_failed,
}
use wire_rs.Protocol.Promises.{Header}
use wire_rs.Protocol.Session.{Session, new}
use wire_rs.Protocol.Session.Ending.{close}
use wire_rs.Protocol.Session.Incoming
use wire_rs.Protocol.Session.Incoming.{Verdict, handle_message}
use wire_rs.Transport.Outbound.{Interference}
use wire_rs.Transport.Fault.{Fault, Attempt, done, failed}
use wire_rs.Transport.Handshake.{Crypto}
use wire_rs.Transport.Client.{Client, Draw, recv}
use wire_rs.Transport.Client
pub mod Ends

-- How the reader's thread ends: its loop is left, it waits for the stream, or it panics; on fuel, it may
-- also run out of it.
pub data Ending : Type 0 where
  stopped waiting panicking exhausted : Ending

-- What one pass of the loop leaves.
pub data Pass : Type 0 where
  leaves : Client → Session → Ending → Pass
  continues : Client → Session → Pass

-- The transport's error, or the end that is the model's own.
abbrev pub left_with : Fault → ℕ → Client → Session → Pass
left_with Fault.terminated now c s =
    leaves c (close (transport TransportError.terminated) now s) stopped
left_with Fault.recv_failed now c s = leaves c (close (transport recv_failed) now s) stopped
left_with Fault.frame_decoding_failed now c s =
    leaves c (close (transport TransportError.frame_decoding_failed) now s) stopped
left_with (Fault.frame_too_large n) now c s =
    leaves c (close (transport (frame_too_large n)) now s) stopped
left_with (Fault.packet_too_large n) now c s =
    leaves c (close (transport (packet_too_large n)) now s) stopped
left_with Fault.handshake_failed now c s =
    leaves c (close (transport handshake_failed) now s) stopped
left_with Fault.invalid_attestation now c s =
    leaves c (close (transport invalid_attestation) now s) stopped
left_with Fault.encryption_failed now c s =
    leaves c (close (transport encryption_failed) now s) stopped
left_with Fault.session_reset now c s = leaves c (close (transport session_reset) now s) stopped
left_with (Fault.send_failed k) now c s = leaves c (close (transport send_failed) now s) stopped
left_with Fault.panicked now c s = leaves c s panicking
left_with Fault.blocked now c s = leaves c s waiting
left_with Fault.exhausted now c s = leaves c s exhausted

abbrev pub handled : ℕ → Client → Session × Verdict → Pass
handled now c (s, Incoming.accepted o) = continues c s
handled now c (s, Incoming.refused e) = leaves c (close e now s) stopped
handled now c (s, Incoming.panicked) = leaves c s panicking

-- The clock's readings of a pass: as the message is handled, for an automatic reply, and at the end.
pub record Readings : Type 0 where
  pub now : ℕ
  pub entry : ℕ
  pub later : ℕ

module _ (unseal : ℕ → List ℕ → Option (List ℕ × ℕ)) (decode_header : List ℕ → Option Header)
    (checked_add : ℕ → ℕ → Option ℕ) (clock : ℕ → Readings) (others : Interference) where
  abbrev pub received : Readings → Session → Client × Attempt (List ℕ) → Pass
  received r s (c, done bytes) =
      handled r.later c (handle_message decode_header checked_add r.now r.entry r.later bytes s)
  received r s (c, failed f) = left_with f r.later c s

  -- One pass of the loop of `run_reader`.
  unfoldable pub pass : Readings → Client → Session → Pass
  unfolding recv handle_message close
  pass r c s = received r s (recv unseal others c)

  abbrev pub proceed :
      Pass → (Client → Session → Client × Session × Ending) → Client × Session × Ending
  proceed (leaves c s e) go = (c, s, e)
  proceed (continues c s) go = go c s

  -- `run_reader` on fuel.
  unfoldable pub read_loop : ℕ → Client → Session → Client × Session × Ending
  unfolding pass
  read_loop zero c s = (c, s, exhausted)
  read_loop (suc fuel) c s = proceed (pass (clock fuel) c s) (λ c' s'. read_loop fuel c' s')

  -- `run_reader`: every pass that continues takes something that the frame reader returned.
  unfoldable pub run_reader : Client → Session → Client × Session × Ending
  unfolding read_loop
  run_reader c s = read_loop (suc (length c.reads)) c s

-- `connect`: the transport's session first, then that of the protocol, whose reader runs on.
module _ (crypto : Crypto) (encode : List ℕ → List ℕ) (encode_buffer : ℕ → ℕ) (Info : Type 0)
    (verifier : List ℕ → ℕ → Option (ℕ × Info)) where
  abbrev started : Client × Attempt (ℕ × Info) → Client × Attempt (Session × Info)
  started (c, done (sender, info)) = (c, done (new Ids.client, info))
  started (c, failed f) = (c, failed f)

  unfoldable pub connect : Draw → Client → Client × Attempt (Session × Info)
  unfolding Client.connect
  connect draw c = started (Client.connect crypto encode encode_buffer Info verifier draw c)
