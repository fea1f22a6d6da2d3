-- ===== src/Protocol/Exchange/Requests.antt =====
-- A request on its way to the peer's application: the writer and the reader of
-- src/protocol/session.rs with the coding of src/protocol/envelope.rs.
use wire_rs.Base.{
  ℕ, ◌<◌, ◌≡◌, refl, ◌∙◌, false, Option, none, some, List, [], ◌∷◌, ◌++◌, length, arith, contains,
}
use wire_rs.Protocol.Ids.{Side, peer_of, from_id, parity, is_request}
use wire_rs.Protocol.Promises.{Header, Envelope, reserve}
use wire_rs.Protocol.Envelope.{Schema, encode, encoded, message}
use wire_rs.Protocol.Envelope.Coding.{IsSchema, decode-encode}
use wire_rs.Protocol.Session.{Session, Queues, Outgoing, request, opened}
use wire_rs.Protocol.Session.Incoming
use wire_rs.Protocol.Session.Incoming.{
  route, take_response, complete_response, admit_request, handle_message, read_message,
}
use wire_rs.Protocol.Session.Writer.{take_outgoing}
use wire_rs.Protocol.Session.Writer
use wire_rs.Protocol.Session.Steps
use wire_rs.Protocol.Session.Delivery.{received, Taking, take_outgoing-Taking}
use wire_rs.Protocol.Session.Invariant.Routes.{take_outgoing-fresh}
use wire_rs.Protocol.Session.Retrieval.{content, header_in, open_envelope}
use wire_rs.Protocol.Exchange.Reading.{plain_header, read_accepted, header_of_encoded}

-- The session `u` of the peer, which had the queues `r`, has the request `id` with this content
-- waiting behind them.
pub record Arrives (schema : Schema) (encode_buffer : ℕ → ℕ) (id body : ℕ) (r : Queues)
    (t u : Session) : Type 0 where
  pub envelope : Envelope
  pub after : Queues
  pub shape : u.state ≡ opened after
  pub queued : after.incoming ≡ r.incoming ++ ((id, envelope) ∷ [])
  pub readable :
      (now : ℕ) (v : Session)
      → v.side ≡ t.side
      → open_envelope schema encode_buffer envelope now v ≡ (v, content body)

admitted :
    (t : Session) (r : Queues) (now total : ℕ) (bytes : List ℕ) (h : Header)
    → t.state ≡ opened r
    → from_id h.id (parity t.side) ≡ is_request
    → h.failed ≡ false
    → h.unknown ≡ false
    → contains h.id r.reserved ≡ false
    → length r.reserved < r.max_requests
    → reserve t.ledger.retained (length bytes) r.max_bytes ≡ some total
    → (after : Queues) × ((route now bytes h t) ≡ (
      record t { state = opened after; ledger = record t.ledger { retained = total } },
      Incoming.accepted none,
    ))
      × (after.incoming ≡ r.incoming ++ ((h.id, received bytes h) ∷ []))
unfolding route admit_request
admitted t r now total bytes h e k f u c l b = (
  record r {
    reserved = h.id ∷ r.reserved;
    incoming = r.incoming ++ ((h.id, received bytes h) ∷ []);
  },
  ground arith,
  refl,
)

module _ (schema : Schema) (encode_buffer : ℕ → ℕ) (checked_add : ℕ → ℕ → Option ℕ) where
  opened_of_encoded :
      (side : Side) (id body : ℕ) (bytes : List ℕ) (h : Header) (now : ℕ) (v : Session)
      → IsSchema schema
      → encode schema encode_buffer side id (message body) ≡ encoded bytes
      → v.side ≡ peer_of side
      → open_envelope schema encode_buffer (received bytes h) now v ≡ (v, content body)
  unfolding open_envelope
  opened_of_encoded side id body bytes h now v x e p =
      rw p (rw ((decode-encode schema encode_buffer side id (message body) bytes x e).0) refl)

  -- A request reaches the peer's application, if the schema's code is sound: where the writer of a
  -- reachable session takes a request under an id and encodes it, and the peer's open session reads
  -- these bytes with the id unused, a slot left and room within its byte limit, the session stays
  -- open, and the request waits with its id behind those that were queued; whoever takes it reads
  -- the content that was sent.
  pub request-Arrives :
      (side : Side) (s t : Session) (q r : Queues) (m : Outgoing)
      (id body total now entry later : ℕ) (bytes : List ℕ)
      → IsSchema schema
      → Steps.Reach side s
      → s.state ≡ opened q
      → (take_outgoing s).1 ≡ Writer.message id m
      → m.body ≡ request body
      → encode schema encode_buffer s.side id (message body) ≡ encoded bytes
      → t.side ≡ peer_of s.side
      → t.state ≡ opened r
      → contains id r.reserved ≡ false
      → length r.reserved < r.max_requests
      → reserve t.ledger.retained (length bytes) r.max_bytes ≡ some total
      → Arrives schema encode_buffer id body r t
          (read_message (header_in schema encode_buffer t.side) checked_add now entry later bytes t)
  request-Arrives side s t q r m id body total now entry later bytes x z o k b e p f c l g =
      let taking : Taking s id m q = take_outgoing-Taking s id body m q o k b in
      let fresh = take_outgoing-fresh side s id body m q taking.after z o taking.shape k b in
      let h : Header = plain_header id (message body) in
      let (after, routed, queued) =
        admitted t r now total bytes h f (rw p fresh.1) refl refl c l g in
      let read =
        read_accepted (header_in schema encode_buffer t.side) checked_add now entry later bytes h t
          _ (rw p (header_of_encoded schema encode_buffer s.side id (message body) bytes x e))
          routed in
      record {
        envelope = received bytes h;
        after = after;
        shape = rw read refl;
        queued = queued;
        readable = λ now' v w. opened_of_encoded s.side id body bytes h now' v x e (w ∙ p);
      }
