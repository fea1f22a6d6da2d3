-- ===== src/Transport/Outbound/Order.antt =====
-- The threads that send into the sessions of one output: `Sender::send` of src/transport/sender.rs with
-- the encryption and writer locks, and the calls of src/transport/outbound.rs that change the binding.
use wire_rs.Base.{
  ℕ, suc, ◌+◌, ◌-◌, ◌<◌, ◌≤◌, ◌≡◌, ◌≢◌, refl, true, false, Option, none, some, List, [], ◌∷◌, arith,
  ◌==◌, if◌then◌else◌, update,
}
use wire_rs.Transport.Outbound.{
  Outbound, Output, Side, Result, ok, err, Refusal, refused, packet_too_large, unsent,
  refuse_oversized, new_outbound, is_bound, bind, unbind, end, disconnect, send_reset, send_dropped,
  send_packet, send,
}
use wire_rs.Transport.Outbound.Sealing.{seal}
pub mod Sealed
pub mod Sequence

-- A context, a sequence number and a packet.
abbrev pub Numbered : Type 0
Numbered = ℕ × ℕ × List ℕ

-- The output with its senders. For each context: the sequence number that its next message is sealed
-- under, and the packet of the thread that holds its encryption lock and waits for the writer. Then the
-- packet of the thread that holds the writer, with its context and sequence number; the contexts
-- allocated so far; and, newest first, each packet whose send succeeded, with its context and sequence
-- number.
pub record Senders : Type 0 where
  pub out : Outbound
  pub sealed : ℕ → ℕ
  pub pending : ℕ → Option (List ℕ)
  pub writing : Option Numbered
  pub contexts : ℕ
  pub log : List Numbered

abbrev pub start : Side → Senders
start side = record {
  out = new_outbound side;
  sealed = λ c. 0;
  pending = λ c. none;
  writing = none;
  contexts = 0;
  log = [];
}

abbrev pub logged {ℓ} : {A : Type ℓ} → Numbered → Result A → List Numbered → List Numbered
logged x (ok a) l = x ∷ l
logged x (err e) l = l

-- How the first half of a send ends: with the packet that waits for the writer, with an error, or in
-- the panic on a failure of the encryption.
pub data Begun : Type 0 where
  sealing : List ℕ → Begun
  declined : Refusal → Begun
  panics : Begun

abbrev pub begun : ℕ → Senders → Option (Result (List ℕ)) → Senders × Begun
begun c s none = (s, panics)
begun c s (some (ok packet)) = (
  record s {
    sealed = update s.sealed c (suc (s.sealed c));
    pending = update s.pending c (some packet);
  },
  sealing packet,
)
begun c s (some (err (packet_too_large n))) = (s, declined (refuse_oversized c n s.out))
begun c s (some (err refused)) = (s, panics)
begun c s (some (err (unsent e))) = (s, panics)

-- `cipher` seals a message with a context under a sequence number.
module _ (cipher : ℕ → ℕ → List ℕ → Option (List ℕ)) (encode : List ℕ → List ℕ)
    (encode_buffer : ℕ → ℕ) where
  -- `Sender::send` until it acquires the writer, under the encryption lock of a context that is held.
  unfoldable pub begin_send : ℕ → List ℕ → Senders → Senders × Begun
  unfolding seal
  begin_send c message s = begun c s (seal encode_buffer (cipher c (s.sealed c)) message)

  -- The end of `Writer::send`, with which the writer is released.
  unfoldable pub finish_send : ℕ → ℕ → List ℕ → Output → Output → Senders → Senders
  unfolding send
  finish_send c n packet out again s =
      let (o, r) = send encode encode_buffer c packet out again s.out in
      record s { out = o; writing = none; log = logged (c, n, packet) r s.log }

  -- Sealing holds the context's encryption lock until the writer is acquired. Whatever changes the
  -- binding, or writes, waits for the writer.
  pub data Step (s : Senders) : Senders → Type 0 where
    begins :
        (c : ℕ) (message : List ℕ)
        → c < s.contexts
        → s.pending c ≡ none
        → Step s (begin_send c message s).0
    acquires :
        (c : ℕ) (packet : List ℕ)
        → s.pending c ≡ some packet
        → s.writing ≡ none
        → Step s (record s {
          pending = update s.pending c none;
          writing = some (c, s.sealed c - 1, packet);
        })
    finishes :
        (c n : ℕ) (packet : List ℕ) (out again : Output)
        → s.writing ≡ some (c, n, packet)
        → Step s (finish_send c n packet out again s)
    binds :
        s.writing ≡ none
        → Step s (record s { out = bind s.contexts s.out; contexts = suc s.contexts })
    unbinds : s.writing ≡ none → Step s (record s { out = unbind s.out })
    ends : (c : ℕ) → s.writing ≡ none → Step s (record s { out = (end c s.out).0 })
    disconnects :
        (c : ℕ) (out : Output)
        → s.writing ≡ none
        → Step s (record s { out = (disconnect c out s.out).0 })
    resets :
        (out : Output) → s.writing ≡ none → Step s (record s { out = (send_reset out s.out).0 })
    drops :
        (out : Output) → s.writing ≡ none → Step s (record s { out = (send_dropped out s.out).0 })
    sends :
        (packet : List ℕ) (out again : Output)
        → s.writing ≡ none
        → Step s (record s { out = (send_packet encode encode_buffer packet out again s.out).0 })

  pub data Reach (side : Side) : Senders → Type 0 where
    here : Reach side (start side)
    next : {s t : Senders} → Reach side s → Step s t → Reach side t
