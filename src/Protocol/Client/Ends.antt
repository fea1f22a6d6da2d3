-- ===== src/Protocol/Client/Ends.antt =====
-- How the reader of a client session, `run_reader` of src/protocol/session.rs, ends.
use wire_rs.Base.{ℕ, zero, suc, ◌<◌, ◌≡◌, ◌≢◌, refl, Option, List, [], ◌∷◌, length, arith, inl, inr}
use wire_rs.Protocol.Errors.{Error}
use wire_rs.Protocol.Promises.{Header}
use wire_rs.Protocol.Session.{Session, ended}
use wire_rs.Protocol.Session.Steps
use wire_rs.Protocol.Ids.{Side}
use wire_rs.Protocol.Session.Ending.{close}
use wire_rs.Protocol.Session.Incoming
use wire_rs.Protocol.Session.Incoming.{
  Verdict, handle_message, route, admit_request, take_response, complete_response, finish,
}
use wire_rs.Transport.Framing.{Packet, packet, signal, decoding_failed, Got}
use wire_rs.Transport.Framing
use wire_rs.Transport.Outbound.{finish_receive}
use wire_rs.Transport.Outbound
use wire_rs.Transport.Outbound.{Interference}
use wire_rs.Transport.Fault.{Fault, Attempt, done, failed, is_present}
use wire_rs.Transport.Client.{Client, recv, end_session}
use wire_rs.Transport.Client.Sessions.{IsClient}
use wire_rs.Protocol.Session.Handling.{State-cases, handle_message-Reach}
use wire_rs.Protocol.Client.{
  Ending, stopped, waiting, panicking, exhausted, Pass, leaves, continues, left_with, handled,
  Readings, received, pass, proceed, read_loop, run_reader,
}

-- How the reader of a session can end: the session is closed where the loop is left, and nothing is
-- left to read where it waits.
abbrev pub Ends : Client × Session × Ending → Type 0
Ends (c, s, stopped) = (e : Error) × (s.state ≡ ended e)
Ends (c, s, waiting) = c.reads ≡ []
Ends (c, s, panicking) = ⊥
Ends (c, s, exhausted) = ⊥

-- A result of the frame reader, where that does not panic.
abbrev pub IsRead : Packet → Type 0
IsRead (packet bytes) = Unit {0}
IsRead signal = Unit {0}
IsRead decoding_failed = Unit {0}
IsRead (Framing.stopped (Got.frame bs)) = ⊥
IsRead (Framing.stopped Got.too_large) = Unit {0}
IsRead (Framing.stopped Got.terminated) = Unit {0}
IsRead (Framing.stopped Got.late) = Unit {0}
IsRead (Framing.stopped Got.failed) = Unit {0}
IsRead (Framing.stopped Got.panicked) = ⊥

abbrev pub AreReads : List Packet → Type 0
AreReads [] = Unit {0}
AreReads (p ∷ ps) = IsRead p × AreReads ps

close-ended : (e : Error) (now : ℕ) (s : Session) → (x : Error) × ((close e now s).state ≡ ended x)
unfolding close
close-ended e now s = elim (State-cases s.state) [
  | inl (x, h) ↦ (x, ground arith)
  | inr (q, h) ↦ (e, ground arith)
]

-- What a call of `recv` takes from the frame reader.
abbrev Takes : Client → Client × Attempt (List ℕ) → Type 0
Takes c (d, done bytes) =
    (length d.reads < length c.reads)
    × (is_present d.receiver ≡ is_present d.sealer)
    × AreReads d.reads
Takes c (d, failed f) =
    (f ≢ Fault.exhausted) × (f ≢ Fault.panicked) × (f ≡ Fault.blocked → d.reads ≡ [])

recv-Takes :
    (unseal : ℕ → List ℕ → Option (List ℕ × ℕ)) (others : Interference) (c : Client)
    → is_present c.receiver ≡ is_present c.sealer
    → AreReads c.reads
    → Takes c (recv unseal others c)
unfolding recv end_session finish_receive Outbound.end
recv-Takes unseal others c p v = ground arith

module _ (unseal : ℕ → List ℕ → Option (List ℕ × ℕ)) (decode_header : List ℕ → Option Header)
    (checked_add : ℕ → ℕ → Option ℕ) (clock : ℕ → Readings) (others : Interference) where
  Passes : Side → Client → Pass → Type 0
  Passes a c (leaves d s e) = Ends (d, s, e)
  Passes a c (continues d s) =
      (length d.reads < length c.reads)
      × (is_present d.receiver ≡ is_present d.sealer)
      × AreReads d.reads
      × Steps.Reach a s

  handled-Passes :
      (a : Side) (now : ℕ) (c d : Client) (s : Session) (v : Verdict)
      → length d.reads < length c.reads
      → is_present d.receiver ≡ is_present d.sealer
      → AreReads d.reads
      → Steps.Reach a s
      → v ≢ Incoming.panicked
      → Passes a c (handled now d (s, v))
  unfolding Passes
  handled-Passes a now c d s (Incoming.accepted o) l p w r n = (l, p, w, r)
  handled-Passes a now c d s (Incoming.refused e) l p w r n = close-ended e now s
  handled-Passes a now c d s Incoming.panicked l p w r n = absurd (n refl)

  left_with-Passes :
      (a : Side) (now : ℕ) (c d : Client) (s : Session) (f : Fault)
      → f ≢ Fault.exhausted
      → f ≢ Fault.panicked
      → (f ≡ Fault.blocked → d.reads ≡ [])
      → Passes a c (left_with f now d s)
  unfolding Passes
  left_with-Passes a now c d s Fault.terminated x y z = close-ended _ now s
  left_with-Passes a now c d s Fault.recv_failed x y z = close-ended _ now s
  left_with-Passes a now c d s Fault.frame_decoding_failed x y z = close-ended _ now s
  left_with-Passes a now c d s (Fault.frame_too_large n) x y z = close-ended _ now s
  left_with-Passes a now c d s (Fault.packet_too_large n) x y z = close-ended _ now s
  left_with-Passes a now c d s Fault.handshake_failed x y z = close-ended _ now s
  left_with-Passes a now c d s Fault.invalid_attestation x y z = close-ended _ now s
  left_with-Passes a now c d s Fault.encryption_failed x y z = close-ended _ now s
  left_with-Passes a now c d s Fault.session_reset x y z = close-ended _ now s
  left_with-Passes a now c d s (Fault.send_failed k) x y z = close-ended _ now s
  left_with-Passes a now c d s Fault.panicked x y z = absurd (y refl)
  left_with-Passes a now c d s Fault.blocked x y z = z refl
  left_with-Passes a now c d s Fault.exhausted x y z = absurd (x refl)

  received-Passes :
      (a : Side) (t : Readings) (c : Client) (s : Session) (r : Client × Attempt (List ℕ))
      → Steps.Reach a s
      → Takes c r
      → Passes a c (received unseal decode_header checked_add clock others t s r)
  received-Passes a t c s (d, done bytes) r (l, p, w) =
      let (reach, calm) =
        handle_message-Reach decode_header checked_add a t.now t.entry t.later bytes s r in
      handled-Passes a t.later c d _ _ l p w reach calm
  received-Passes a t c s (d, failed f) r (x, y, z) = left_with-Passes a t.later c d s f x y z

  proceed-Ends :
      (a : Side) (c : Client) (x : Pass) (go : Client → Session → Client × Session × Ending)
      → Passes a c x
      → ((d : Client) (t : Session)
          → length d.reads < length c.reads
          → is_present d.receiver ≡ is_present d.sealer
          → AreReads d.reads
          → Steps.Reach a t
          → Ends (go d t))
      → Ends (proceed unseal decode_header checked_add clock others x go)
  unfolding Passes
  proceed-Ends a c (leaves d s e) go v f = v
  proceed-Ends a c (continues d s) go (l, p, w, r) f = f d s l p w r

  read_loop-Ends :
      (a : Side) (fuel : ℕ) (c : Client) (s : Session)
      → length c.reads < fuel
      → is_present c.receiver ≡ is_present c.sealer
      → AreReads c.reads
      → Steps.Reach a s
      → Ends (read_loop unseal decode_header checked_add clock others fuel c s)
  unfolding read_loop pass
  read_loop-Ends a zero c s l p w r = absurd (omega arith)
  read_loop-Ends a (suc fuel) c s l p w r =
      proceed-Ends a c
        (received unseal decode_header checked_add clock others (clock fuel) s
          (recv unseal others c))
        _
        (received-Passes a (clock fuel) c s (recv unseal others c) r
          (recv-Takes unseal others c p w))
        (λ d t l' p' w' r'. read_loop-Ends a fuel d t (omega arith) p' w' r')

  -- The reader of a client session, which starts on a client and a session in order and where the
  -- frame reader does not panic: it leaves its loop only with the session closed, and without that
  -- it waits only when nothing is left to read; it does not panic, and the fuel is enough.
  pub run_reader-Ends :
      (a : Side) (d : ℕ) (c : Client) (s : Session)
      → IsClient d c
      → AreReads c.reads
      → Steps.Reach a s
      → Ends (run_reader unseal decode_header checked_add clock others c s)
  unfolding run_reader
  run_reader-Ends a d c s v w r =
      read_loop-Ends a (suc (length c.reads)) c s (omega arith) v.paired w r
