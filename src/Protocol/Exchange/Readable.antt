-- ===== src/Protocol/Exchange/Readable.antt =====
-- That the messages of a session's peer decode, where both run src/protocol/session.rs.
use wire_rs.Base.{
  ℕ, ◌≡◌, ◌≢◌, refl, sym, subst, Bool, true, false, Option, some, List, ◌∷◌, arith, inl, inr,
}
use wire_rs.Protocol.Ids.{Side, peer_of}
use wire_rs.Protocol.Errors.{malformed}
use wire_rs.Protocol.Promises.{Promise, Envelope, Header, response}
use wire_rs.Protocol.Promises.Settling.{promise_at}
use wire_rs.Protocol.Envelope.{Schema, Decoded, decoded, invalid, encode, encoded, decode}
use wire_rs.Protocol.Envelope
use wire_rs.Protocol.Envelope.Coding.{IsSchema, decode-encode}
use wire_rs.Protocol.Session.{Session, Queues, opened, new}
use wire_rs.Protocol.Session.Incoming.{route}
use wire_rs.Protocol.Session.Steps
use wire_rs.Protocol.Session.Retrieval.{fails, header_in, open_envelope}
use wire_rs.Protocol.Exchange.Slots.{is_route, side-Step}
use wire_rs.Protocol.Exchange.Peers.{Peers, Step, works, sends, reads, turns, Reach, here, next}
use wire_rs.Protocol.Exchange.Flow.{Carries, asks, answers, read_message-cases}
use wire_rs.Protocol.Exchange.Honest.{Front, front, reading, IsLinked, Reach-IsLinked}
use wire_rs.Protocol.Exchange.Payloads.{IsKeeping, route-IsKeeping, Step-IsKeeping}

-- The envelope is the next request for the application, or a promise's result.
pub data Received (s : Session) (e : Envelope) : Type 0 where
  queued :
      (id : ℕ) (rest : List (ℕ × Envelope)) (q : Queues)
      → s.state ≡ opened q
      → q.incoming ≡ (id, e) ∷ rest
      → Received s e
  answered :
      (i : ℕ) (p : Promise)
      → promise_at i s.ledger ≡ some p
      → p.result ≡ some (response e)
      → Received s e

abbrev is_decoded : Decoded → Bool
is_decoded (decoded id body) = true
is_decoded invalid = false

module _ (schema : Schema) (encode_buffer : ℕ → ℕ) (checked_add : ℕ → ℕ → Option ℕ) where
  -- Whether the bytes decode on this side.
  abbrev valid : Side → List ℕ → Bool
  valid side bytes = is_decoded (decode schema encode_buffer side bytes)

  encoded-valid :
      (side : Side) (id : ℕ) (body : Envelope.Body) (bytes : List ℕ)
      → IsSchema schema
      → encode schema encode_buffer side id body ≡ encoded bytes
      → valid (peer_of side) bytes ≡ true
  encoded-valid side id body bytes x e =
      rw ((decode-encode schema encode_buffer side id body bytes x e).0) refl

  carried-valid :
      {side : Side} {hi lo : ℕ} {bytes : List ℕ} {rest : List (List ℕ)}
      → IsSchema schema
      → Carries schema encode_buffer side hi lo (bytes ∷ rest)
      → valid (peer_of side) bytes ≡ true
  carried-valid {side} x (asks id body bytes rest e l c) = encoded-valid side id _ bytes x e
  carried-valid {side} x (answers id body bytes rest e k c) = encoded-valid side id body bytes x e

  IsReadable : Session → Type 0
  IsReadable s = (i : ℕ) → IsKeeping (valid s.side) i s

  works-IsReadable :
      {s t : Session} (st : Steps.Step s t) → is_route st ≡ false → IsReadable s → IsReadable t
  unfolding IsReadable
  works-IsReadable {s} {t} st n v i = rw (side-Step st) (Step-IsKeeping (valid s.side) i st n (v i))

  routed-IsReadable :
      (now : ℕ) (bytes : List ℕ) (h : Header) (s : Session)
      → valid s.side bytes ≡ true
      → IsReadable s
      → IsReadable (route now bytes h s).0
  unfolding IsReadable
  routed-IsReadable now bytes h s p v i =
      rw (side-Step {s = s} (Steps.routes now bytes h))
        (route-IsKeeping (valid s.side) i now bytes h s p (v i))

  reading-IsReadable :
      (now entry later : ℕ) (bytes : List ℕ) (s : Session)
      → Front schema encode_buffer checked_add s bytes
      → valid s.side bytes ≡ true
      → IsReadable s
      → IsReadable (reading schema encode_buffer checked_add now entry later bytes s)
  reading-IsReadable now entry later bytes s f p v =
      let routed : IsReadable (route now bytes f.header s).0 =
        routed-IsReadable now bytes f.header s p v in
      elim (read_message-cases (header_in schema encode_buffer s.side) checked_add now entry later
        bytes f.header s f.readable f.known) [
          | inl e ↦ subst IsReadable (sym e) routed
          | inr (x, e) ↦ subst IsReadable (sym e) (
              works-IsReadable {s = (route now bytes f.header s).0} (Steps.closes x later) refl
                routed)
        ]

  abbrev AreReadable : Peers → Type 0
  AreReadable e = IsReadable e.near × IsReadable e.far

  Step-AreReadable :
      {e f : Peers}
      → IsSchema schema
      → IsLinked schema encode_buffer checked_add e
      → Step schema encode_buffer checked_add e f
      → AreReadable e
      → AreReadable f
  Step-AreReadable {e} x k (works s st n) v = (works-IsReadable st n v.0, v.1)
  Step-AreReadable {e} x k (sends now id m bytes h c) v =
      (works-IsReadable {s = e.near} (Steps.takes now) refl v.0, v.1)
  Step-AreReadable {e} x k (reads now entry later bytes rest h) v =
      let carried =
        subst (Carries schema encode_buffer e.far.side _ k.coming.lo) h k.coming.carried in
      (
        reading-IsReadable now entry later bytes e.near
            (front schema encode_buffer checked_add e.far e.near x k.opposite k.coming.unused
              carried)
            (rw k.opposite (carried-valid x carried)) v.0,
        v.1,
      )
  Step-AreReadable {e} x k turns v = (v.1, v.0)

  Reach-AreReadable :
      (side : Side) (e : Peers)
      → IsSchema schema
      → Reach schema encode_buffer checked_add side e
      → AreReadable e
  unfolding IsReadable new
  Reach-AreReadable side e x here = (λ i. (tt, ground arith), λ i. (tt, ground arith))
  Reach-AreReadable side f x (next {e} r st) =
      Step-AreReadable x (Reach-IsLinked schema encode_buffer checked_add side e x r) st
        (Reach-AreReadable side e x r)

  received-valid :
      (s : Session) (e : Envelope) → IsReadable s → Received s e → valid s.side e.bytes ≡ true
  unfolding IsReadable
  received-valid s e v (queued id rest q o h) = ground (arith, v 0)
  received-valid s e v (answered i p o h) = ground (arith, v i)

  -- Where both sides run this code and the schema's code is sound, the next request that a session hands
  -- to its application decodes, and so does every answer in a promise: opening the envelope does not
  -- fail as malformed, and leaves the session as it is.
  pub open_envelope-Received :
      (side : Side) (e : Peers) (env : Envelope) (now : ℕ)
      → IsSchema schema
      → Reach schema encode_buffer checked_add side e
      → Received e.near env
      → ((open_envelope schema encode_buffer env now e.near).0 ≡ e.near)
        × ((open_envelope schema encode_buffer env now e.near).1 ≢ fails malformed)
  unfolding open_envelope
  open_envelope-Received side e env now x r h =
      ground (arith, received-valid e.near env (Reach-AreReadable side e x r).0 h)
