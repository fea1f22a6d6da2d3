-- ===== src/Protocol/Session/Working/Writing.antt =====
-- What the writer's loop body of src/protocol/session.rs makes of a message that cannot be encoded,
-- and the steps that it consists of.
use wire_rs.Base.{
  ℕ, ◌≡◌, ◌⊎◌, inl, inr, refl, Bool, true, false, Option, none, some, List, ◌==◌, leb, remove,
  lookup, arith, if◌then◌else◌, Option-cases,
}
use wire_rs.Protocol.Ids.{Side}
use wire_rs.Protocol.Errors.{Error, timeout, wrong_direction, too_large, transport, TransportError}
use wire_rs.Protocol.Promises.{Outcome, failure}
use wire_rs.Protocol.Promises.Settling.{promise_at, promise_at-send, settled_by, map_some}
use wire_rs.Protocol.Envelope.{Schema, Encoded, encoded, encode, message, error}
use wire_rs.Protocol.Envelope
use wire_rs.Protocol.Session.{Session, Queues, Operation, Outgoing, Body, request, reply, opened}
use wire_rs.Protocol.Session.Ending.{fail}
use wire_rs.Protocol.Session.Writer.{record_write, forget_request}
use wire_rs.Protocol.Session.Working.{body_of, outcome_of, forget, conclude, write_message}
use wire_rs.Protocol.Session.Steps

-- What a failure at `now` publishes: an operation that is due times out.
abbrev pub failing : ℕ → Error → Operation → Outcome
failing now e op = failure (if leb op.deadline now then timeout else e)

abbrev pub routes_without : Body → ℕ → List (ℕ × ℕ) → List (ℕ × ℕ)
routes_without (request m) id routes = remove id routes
routes_without (reply j a) id routes = routes

-- The session goes on, without the operation of the message and without a route for its answer.
pub record Refuses (now id : ℕ) (e : Error) (m : Outgoing) (op : Operation) (q : Queues)
    (s : Session) (r : Session × Bool) : Type 0 where
  pub goes_on : r.1 ≡ true
  pub shape :
      r.0.state
      ≡ opened (record q {
        operations = remove m.key q.operations;
        outstanding = routes_without m.body id q.outstanding;
      })
  pub own :
      promise_at op.sender.promise r.0.ledger
      ≡ map_some (settled_by (failing now e op)) (promise_at op.sender.promise s.ledger)
  pub others :
      (i : ℕ) → (op.sender.promise == i) ≡ false → promise_at i r.0.ledger ≡ promise_at i s.ledger

record_write-Refuses :
    (now id : ℕ) (e : Error) (m : Outgoing) (b : Body) (op : Operation) (q : Queues) (s : Session)
    → m.body ≡ b
    → s.state ≡ opened q
    → lookup m.key q.operations ≡ some op
    → Refuses now id e m op q s (record_write m.key (some e) now (forget b id s), true)
unfolding record_write forget_request fail
record_write-Refuses now id e m (request x) op q s b h l = record {
  goes_on = refl;
  shape = ground arith;
  own = ground (arith, promise_at-send op.sender.promise op.sender (failing now e op) s.ledger);
  others = λ i n. ground (arith, promise_at-send i op.sender (failing now e op) s.ledger);
}
record_write-Refuses now id e m (reply j a) op q s b h l = record {
  goes_on = refl;
  shape = ground arith;
  own = ground (arith, promise_at-send op.sender.promise op.sender (failing now e op) s.ledger);
  others = λ i n. ground (arith, promise_at-send i op.sender (failing now e op) s.ledger);
}

forget-Reach :
    (side : Side) (s : Session) (b : Body) (id : ℕ)
    → Steps.Reach side s
    → Steps.Reach side (forget b id s)
forget-Reach side s (request x) id r = Steps.next r (Steps.forgets id)
forget-Reach side s (reply j a) id r = r

conclude-Reach :
    (side : Side) (s : Session) (o : Option Error) (id now : ℕ) (m : Outgoing)
    → Steps.Reach side s
    → Steps.Reach side (conclude o id m now s).0
unfolding conclude
conclude-Reach side s none id now m r = Steps.next r (Steps.writes m.key none now)
conclude-Reach side s (some (transport e)) id now m r =
    Steps.next r (Steps.closes (transport e) now)
conclude-Reach side s (some e) id now m r =
    Steps.next (forget-Reach side s m.body id r) (Steps.writes m.key (some e) now)

module _ (schema : Schema) (encode_buffer : ℕ → ℕ) where
  refusals_of_encode :
      (side : Side) (id : ℕ) (body : Envelope.Body) (e : Error)
      → encode schema encode_buffer side id body ≡ Envelope.refused e
      → (e ≡ wrong_direction) ⊎ ((n : ℕ) × (e ≡ too_large n))
  unfolding encode
  refusals_of_encode side id (error code) e h =
      inr (
        schema.encoded_len side (record { id = id; err = some code; content = none }),
        ground arith,
      )
  refusals_of_encode side id (message m) e h = elim (Option-cases (schema.content_of side m)) [
    | inl n ↦ inl (ground arith)
    | inr (c, n) ↦
        inr
          (schema.encoded_len side (record { id = id; err = none; content = some c }), ground arith)
  ]

  -- A message that cannot be encoded, of an open session in which its operation is pending, fails
  -- this operation, as timed out if that is due, and no other promise; the writer goes on, the
  -- session stays as it was but for the operation, and no answer is awaited under the id of a
  -- request.
  pub write_message-Refuses :
      (now id : ℕ) (e : Error) (m : Outgoing) (op : Operation) (q : Queues) (s : Session)
      (sent : Option TransportError)
      → s.state ≡ opened q
      → lookup m.key q.operations ≡ some op
      → encode schema encode_buffer s.side id (body_of m.body) ≡ Envelope.refused e
      → Refuses now id e m op q s (write_message schema encode_buffer sent id m now s)
  unfolding write_message conclude
  write_message-Refuses now id e m op q s sent h l r =
      elim (refusals_of_encode s.side id (body_of m.body) e r) [
        | inl w ↦ rw (r, w) (record_write-Refuses now id wrong_direction m m.body op q s refl h l)
        | inr (n, w) ↦
            rw (r, w) (record_write-Refuses now id (too_large n) m m.body op q s refl h l)
      ]

  -- The writer's loop body consists of steps of the session.
  pub write_message-Reach :
      (side : Side) (now id : ℕ) (m : Outgoing) (s : Session) (sent : Option TransportError)
      → Steps.Reach side s
      → Steps.Reach side (write_message schema encode_buffer sent id m now s).0
  unfolding write_message
  write_message-Reach side now id m s sent r =
      conclude-Reach side s
        (outcome_of (encode schema encode_buffer s.side id (body_of m.body)) sent) id now m r
