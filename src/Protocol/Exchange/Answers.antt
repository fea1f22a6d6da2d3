-- ===== src/Protocol/Exchange/Answers.antt =====
-- An answer on its way to the application that waits for it (src/protocol/session.rs,
-- src/protocol/envelope.rs, src/protocol/promise.rs).
use wire_rs.Base.{
  ℕ, ◌<◌, ◌≡◌, refl, ◌∙◌, true, Option, none, some, List, [], ◌∷◌, length, arith, lookup,
}
use wire_rs.Protocol.Ids.{Side, peer_of, peer_of-peer_of, from_id, parity, parity_of, is_response}
use wire_rs.Protocol.Errors.{remote}
use wire_rs.Protocol.Promises.{Promise, Header, Envelope, reserve, response, wait_result}
use wire_rs.Protocol.Promises.Settling.{promise_at, settled_by}
use wire_rs.Protocol.Envelope.{
  Schema, encode, encoded, decode, decoded, decode_header, header_of, message, error,
}
use wire_rs.Protocol.Envelope
use wire_rs.Protocol.Envelope.Coding.{IsSchema, decode-encode}
use wire_rs.Protocol.Session.{
  Session, Queues, Operation, Outgoing, Answer, reply, success, refusal, opened,
}
use wire_rs.Protocol.Session.Ending.{expire}
use wire_rs.Protocol.Session.Incoming
use wire_rs.Protocol.Session.Incoming.{
  route, take_response, complete_response, admit_request, handle_message, read_message,
}
use wire_rs.Protocol.Session.Writer.{take_outgoing}
use wire_rs.Protocol.Session.Writer
use wire_rs.Protocol.Session.Steps
use wire_rs.Protocol.Session.Delivery.{received, route_found, response_of_route}
use wire_rs.Protocol.Session.Invariant.Routes.{Own, IsRouted, Reach-IsRouted, from_id_own}
use wire_rs.Protocol.Session.Ended.{is_open}
use wire_rs.Protocol.Session.Unsettled.{expire_other}
use wire_rs.Protocol.Session.Promised.{idle}
use wire_rs.Protocol.Session.Retrieval.{
  Content, content, fails, waited, header_in, open_envelope, wait_message,
}
use wire_rs.Protocol.Exchange.Reading.{replied_id, plain_header, read_accepted, header_of_encoded}

-- What the peer answers with, as the application that asked sees it.
abbrev pub seen : Answer → Content
seen (success m) = content m
seen (refusal code) = fails (remote code)

abbrev body_of_answer : Answer → Envelope.Body
body_of_answer (success m) = message m
body_of_answer (refusal code) = error code

parity_of_route :
    (side : Side) (id key : ℕ) (routes : List (ℕ × ℕ))
    → Own side routes
    → lookup id routes ≡ some key
    → parity_of id ≡ parity side
unfolding lookup
parity_of_route side id key [] v e = ground arith
parity_of_route side id key ((j, k) ∷ routes) v e =
    ground (arith, parity_of_route side id key routes v.1)

side-expire : (now : ℕ) (s : Session) → (expire now s).side ≡ s.side
unfolding expire
side-expire now s = ground arith

routed_side :
    (now : ℕ) (bytes : List ℕ) (h : Header) (s : Session) → (route now bytes h s).0.side ≡ s.side
unfolding route admit_request take_response
routed_side now bytes h s = ground arith

awaited_kind :
    (side : Side) (s : Session) (q : Queues) (id key : ℕ)
    → Steps.Reach side s
    → s.state ≡ opened q
    → lookup id q.outstanding ≡ some key
    → from_id id (parity s.side) ≡ is_response
awaited_kind side s q id key z o l =
    let v : IsRouted s = Reach-IsRouted side s z in
    ground (arith, parity_of_route s.side id key q.outstanding, from_id_own s.side id)

responded :
    (s : Session) (now key total : ℕ) (bytes : List ℕ) (h : Header) (q : Queues) (op : Operation)
    → s.state ≡ opened q
    → from_id h.id (parity s.side) ≡ is_response
    → lookup h.id q.outstanding ≡ some key
    → lookup key q.operations ≡ some op
    → now < op.deadline
    → op.sender.response ≡ true
    → reserve s.ledger.retained (length bytes) q.max_bytes ≡ some total
    → (route now bytes h s ≡ ((route now bytes h s).0, Incoming.accepted none))
      × (is_open (route now bytes h s).0 ≡ true)
unfolding route take_response complete_response
responded s now key total bytes h q op o k l d w a f = (ground arith, ground arith)

module _ (schema : Schema) (encode_buffer : ℕ → ℕ) (checked_add : ℕ → ℕ → Option ℕ) where
  wait_message-response :
      (i id now later : ℕ) (e : Envelope) (a : Answer) (p : Promise) (u : Session)
      → promise_at i (expire now u).ledger ≡ some p
      → p.result ≡ some (response e)
      → decode schema encode_buffer u.side e.bytes ≡ decoded id (body_of_answer a)
      → (wait_message schema encode_buffer i now later u).1 ≡ waited (seen a)
  unfolding wait_message wait_result open_envelope
  wait_message-response i id now later e (success m) p u f r d = ground (arith, side-expire now u)
  wait_message-response i id now later e (refusal c) p u f r d = ground (arith, side-expire now u)

  -- An answer reaches the application that asked, if the schema's code is sound: where a reachable
  -- session awaits an answer under an id, with the deadline of its operation ahead and its promise
  -- still held, and the peer's writer takes a reply to this id and encodes it, and the session
  -- reads these bytes with room within its byte limit, then it stays open, and whoever waits on the
  -- promise, however late, gets what the peer answered with.
  pub reply-waited :
      (side : Side) (s t : Session) (q : Queues) (m : Outgoing) (op : Operation) (p : Promise)
      (a : Answer) (id n key total now entry later soon : ℕ) (bytes : List ℕ)
      → IsSchema schema
      → Steps.Reach side s
      → s.state ≡ opened q
      → lookup id q.outstanding ≡ some key
      → lookup key q.operations ≡ some op
      → now < op.deadline
      → promise_at op.sender.promise s.ledger ≡ some p
      → p.alive ≡ true
      → t.side ≡ peer_of s.side
      → (take_outgoing t).1 ≡ Writer.message n m
      → m.body ≡ reply id a
      → encode schema encode_buffer t.side n (body_of_answer a) ≡ encoded bytes
      → reserve s.ledger.retained (length bytes) q.max_bytes ≡ some total
      → (is_open (
            read_message
              (header_in schema encode_buffer s.side)
              checked_add
              now
              entry
              later
              bytes
              s)
          ≡ true)
        × ((wait_message schema encode_buffer op.sender.promise soon later (
              read_message
                (header_in schema encode_buffer s.side)
                checked_add
                now
                entry
                later
                bytes
                s)).1
            ≡ waited (seen a))
  reply-waited side s t q m op p a id n key total now entry later soon bytes x z o k l d v w c g b e
        f =
      let h : Header = plain_header n (body_of_answer a) in
      let same : n ≡ id = replied_id t id n a m g b in
      let u : Session = (route now bytes h s).0 in
      let kind : from_id h.id (parity s.side) ≡ is_response =
        rw same (awaited_kind side s q id key z o k) in
      let asking = response_of_route side s q id key op z o k l in
      let found = route_found s now key total bytes h q op p o kind (rw same k) l d asking v f in
      let accepted = responded s now key total bytes h q op o kind (rw same k) l d asking f in
      let back : peer_of t.side ≡ s.side = rw c (peer_of-peer_of s.side) in
      let coded = decode-encode schema encode_buffer t.side n (body_of_answer a) bytes x e in
      let read =
        read_accepted (header_in schema encode_buffer s.side) checked_add now entry later bytes h s
          u
          (rw (← back)
            (header_of_encoded schema encode_buffer t.side n (body_of_answer a) bytes x e))
          accepted.0 in
      let settled = settled_by (response (received bytes h)) p in
      let pending =
        idle op.sender.promise settled (Steps.next z (Steps.routes now bytes h)) found
          (rw w refl) in
      rw read (
        accepted.1,
        wait_message-response op.sender.promise n soon later (received bytes h) a settled u
            (expire_other op.sender.promise soon u pending ∙ found) (rw w refl)
            (rw (routed_side now bytes h s, ← back) coded.0),
      )
