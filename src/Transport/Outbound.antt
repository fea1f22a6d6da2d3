-- ===== src/Transport/Outbound.antt =====
-- The output of one byte stream and its binding: `Outbound` and `Writer` of src/transport/outbound.rs.
-- A sending context is the number of its allocation. Each function of the writer's guard runs under
-- the writer lock, which every change of the binding holds; `finish_receive` and `refuse_oversized`
-- read the binding under its own lock. An output names how the adapter's write ends, and whether the
-- deadline has passed when it returns.
use wire_rs.Base.{ℕ, Bool, true, false, not, ◌&&◌, Option, none, some, List, ◌==◌, if◌then◌else◌}
use wire_rs.Transport.Output.{
  ErrorKind, timed_out, not_connected, write_zero, interrupted, other_kind,
}
use wire_rs.Transport.Framing.Writer.{
  FrameWriter, new_writer, Writing, Sent, sent, send_failed, frame_too_large,
}
use wire_rs.Transport.Framing.Writer
pub mod Sealing
pub mod Order
pub mod Others

pub data Side : Type 0 where
  client server : Side

pub record Output : Type 0 where
  pub writing : Writing
  pub late : Bool

pub record Outbound : Type 0 where
  pub framer : FrameWriter
  pub binding : Option ℕ
  pub side : Side

-- `Outbound::new`
abbrev pub new_outbound : Side → Outbound
new_outbound side = record { framer = new_writer; binding = none; side = side }

-- What a send or a receive returns where it does not succeed, as far as these functions make it;
-- `refused` is the `EncryptionFailed` of a session that has ended.
pub data Refusal : Type 0 where
  refused : Refusal
  packet_too_large : ℕ → Refusal
  unsent : Sent → Refusal

pub data Result {ℓ} (A : Type ℓ) : Type ℓ where
  ok : A → Result A
  err : Refusal → Result A

abbrev pub is_bound : ℕ → Option ℕ → Bool
is_bound c none = false
is_bound c (some d) = d == c

-- `Writer::bind`, with which a new context replaces the binding.
unfoldable pub bind : ℕ → Outbound → Outbound
bind c o = record o { binding = some c }

-- `Writer::unbind`
unfoldable pub unbind : Outbound → Outbound
unbind o = record o { binding = none }

-- `Writer::end`
unfoldable pub end : ℕ → Outbound → Outbound × Bool
end c o = if is_bound c o.binding then (record o { binding = none }, true) else (o, false)

-- What other threads make of the outbound side while its owner is in a call of `recv`: until the call
-- has read and decrypted, and between its `finish_receive` and its return. Both are numbered by the
-- packets that the reader has left.
pub record Interference : Type 0 where
  pub during : ℕ → Outbound → Outbound
  pub after : ℕ → Outbound → Outbound

-- `Outbound::finish_receive`
unfoldable pub finish_receive {ℓ} : {A : Type ℓ} → ℕ → Result A → Outbound → Result A
finish_receive c r o = if is_bound c o.binding then r else err refused

-- `Outbound::refuse_oversized`
unfoldable pub refuse_oversized : ℕ → ℕ → Outbound → Refusal
refuse_oversized c size o = if is_bound c o.binding then packet_too_large size else refused

abbrev is_server : Side → Bool
is_server client = false
is_server server = true

abbrev is_timeout : Sent → Bool
is_timeout sent = false
is_timeout (frame_too_large n) = false
is_timeout (send_failed timed_out) = true
is_timeout (send_failed not_connected) = false
is_timeout (send_failed write_zero) = false
is_timeout (send_failed interrupted) = false
is_timeout (send_failed (other_kind k)) = false

-- `Writer::notify_failure`: the second output of a failed send, if there is one.
unfoldable pub notify_failure : Sent → Output → Outbound → Outbound
notify_failure s out o =
    if is_server o.side && not (is_timeout s)
    then record o { framer = (Writer.send_dropped out.writing out.late o.framer).0 }
    else o

abbrev completed : Outbound × Sent → Outbound × Result (Unit {0})
completed (o, sent) = (o, ok tt)
completed (o, send_failed e) = (o, err (unsent (send_failed e)))
completed (o, frame_too_large n) = (o, err (unsent (frame_too_large n)))

abbrev with_framer : Outbound → FrameWriter × Sent → Outbound × Sent
with_framer o (f, s) = (record o { framer = f }, s)

-- `Outbound::disconnect`: an obsolete context changes nothing.
unfoldable pub disconnect : ℕ → Output → Outbound → Outbound × Result (Unit {0})
unfolding end
disconnect c out o =
    let (o', ended) = end c o in
    if ended && is_server o'.side
    then completed (with_framer o' (Writer.send_dropped out.writing out.late o'.framer))
    else (o', ok tt)

-- `Outbound::send_reset`
unfoldable pub send_reset : Output → Outbound → Outbound × Result (Unit {0})
unfolding unbind
send_reset out o =
    let o' : Outbound = unbind o in
    completed (with_framer o' (Writer.send_reset out.writing out.late o'.framer))

-- `Outbound::send_dropped`
unfoldable pub send_dropped : Output → Outbound → Outbound × Result (Unit {0})
unfolding unbind
send_dropped out o =
    let o' : Outbound = unbind o in
    completed (with_framer o' (Writer.send_dropped out.writing out.late o'.framer))

module _ (encode : List ℕ → List ℕ) (encode_buffer : ℕ → ℕ) where
  abbrev notified : Output → Outbound × Sent → Outbound × Sent
  notified again (o, sent) = (o, sent)
  notified again (o, send_failed e) = (notify_failure (send_failed e) again o, send_failed e)
  notified again (o, frame_too_large n) = (o, frame_too_large n)

  -- `Outbound::send_packet`, for a packet that is not sealed. Only a failed write is notified.
  unfoldable pub send_packet : List ℕ → Output → Output → Outbound → Outbound × Result (Unit {0})
  unfolding notify_failure
  send_packet packet out again o = completed (
      notified again (
        with_framer o
          (Writer.send_packet encode encode_buffer packet out.writing out.late o.framer)))

  abbrev after_failure : ℕ → Output → Sent → Outbound × Bool → Outbound
  after_failure c again s (o, true) = notify_failure s again o
  after_failure c again s (o, false) = o

  abbrev concluded : ℕ → Output → Outbound × Sent → Outbound × Result (Unit {0})
  concluded c again (o, sent) = (o, ok tt)
  concluded c again (o, send_failed e) =
      (after_failure c again (send_failed e) (end c o), err (unsent (send_failed e)))
  concluded c again (o, frame_too_large n) =
      (after_failure c again (frame_too_large n) (end c o), err (unsent (frame_too_large n)))

  -- `Writer::send`, for a packet that context `c` has sealed.
  unfoldable pub send : ℕ → List ℕ → Output → Output → Outbound → Outbound × Result (Unit {0})
  unfolding end notify_failure
  send c packet out again o =
      if is_bound c o.binding
      then concluded c again (
          with_framer o
            (Writer.send_packet encode encode_buffer packet out.writing out.late o.framer))
      else (o, err refused)
