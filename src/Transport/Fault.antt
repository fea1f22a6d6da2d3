-- ===== src/Transport/Fault.antt =====
-- What the calls of the transport return where they fail, `Error` of src/transport/mod.rs, and the
-- calls that can fail.
use wire_rs.Base.{ℕ, suc, Bool, true, false, Option, none, some, List, [], ◌∷◌}
use wire_rs.Transport.Output.{ErrorKind}
use wire_rs.Transport.Framing.{Got, max_frame_size}
use wire_rs.Transport.Framing.Writer.{Sent, flushed}
use wire_rs.Transport.Outbound.{Output, Refusal, refused, unsent}

-- The last three are the model's own: a panic, a call that waits for what never comes, and fuel that
-- runs out.
pub data Fault : Type 0 where
  terminated recv_failed frame_decoding_failed handshake_failed invalid_attestation
        encryption_failed session_reset :
      Fault
  frame_too_large packet_too_large : ℕ → Fault
  send_failed : ErrorKind → Fault
  panicked blocked exhausted : Fault

abbrev pub sent_fault : Refusal → Fault
sent_fault refused = encryption_failed
sent_fault (Refusal.packet_too_large n) = packet_too_large n
sent_fault (unsent Sent.sent) = panicked
sent_fault (unsent (Sent.send_failed e)) = send_failed e
sent_fault (unsent (Sent.frame_too_large n)) = frame_too_large n

abbrev pub stop_fault : Got → Fault
stop_fault (Got.frame bs) = panicked
stop_fault Got.too_large = frame_too_large (suc max_frame_size)
stop_fault Got.terminated = terminated
stop_fault Got.late = recv_failed
stop_fault Got.failed = recv_failed
stop_fault Got.panicked = panicked

-- An output beyond the list is taken at once.
abbrev pub next_output : List Output → Output × List Output
next_output [] = (record { writing = flushed; late = false }, [])
next_output (out ∷ outs) = (out, outs)

abbrev pub is_present : Option ℕ → Bool
is_present none = false
is_present (some c) = true

pub data Attempt (A : Type 0) : Type 0 where
  done : A → Attempt A
  failed : Fault → Attempt A

abbrev pub or_fail : {A : Type 0} → Fault → Option A → Attempt A
or_fail f none = failed f
or_fail f (some a) = done a
