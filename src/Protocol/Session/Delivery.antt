-- ===== src/Protocol/Session/Delivery.antt =====
-- The answers of the peer: what `handle_message` and `next_outgoing` of src/protocol/session.rs do
-- together.
use wire_rs.Base.{
  ℕ, ◌<◌, ◌≡◌, ◌≢◌, true, some, List, [], ◌∷◌, arith, ◌==◌, if◌then◌else◌, lookup, insert, length,
  lookup-insert,
}
use wire_rs.Protocol.Ids.{Side, from_id, is_response, parity}
use wire_rs.Protocol.Promises.{Promise, Header, Envelope, response, reserve}
use wire_rs.Protocol.Promises.Settling.{promise_at, promise_at-send, settled_by}
use wire_rs.Protocol.Session.{Session, State, Queues, opened, ended, Operation, Outgoing, request}
use wire_rs.Protocol.Session.Incoming.{panicked, complete_response, take_response, route}
use wire_rs.Protocol.Session.Writer.{message, label, take_outgoing}
use wire_rs.Protocol.Session.Steps
use wire_rs.Protocol.Session.Invariant.Kinds.{Reach-IsAsking, routes_of_lookup, requests_of_lookup}
use wire_rs.Protocol.Session.Invariant.Routes.{take_outgoing-fresh}

pub response_of_route :
    (side : Side) (s : Session) (q : Queues) (id key : ℕ) (op : Operation)
    → Steps.Reach side s
    → s.state ≡ opened q
    → lookup id q.outstanding ≡ some key
    → lookup key q.operations ≡ some op
    → op.sender.response ≡ true
response_of_route side s q id key op r e f o = grind (
  arith,
  Reach-IsAsking side s key r,
  routes_of_lookup key id q.outstanding,
  requests_of_lookup key q.operations op,
)

-- Whatever message arrives in a reachable session, handling it does not reach the assertion that the
-- operation of an answer awaits one.
pub route-no_panic :
    (side : Side) (s : Session) (now : ℕ) (bytes : List ℕ) (h : Header)
    → Steps.Reach side s
    → (route now bytes h s).1 ≢ panicked
unfolding route take_response complete_response
route-no_panic side s now bytes h r e =
    grind
      (arith, λ (q : Queues) (id key : ℕ) (op : Operation). response_of_route side s q id key op r)

lookup-label :
    (k key id : ℕ) (ops : List (ℕ × Operation)) (op : Operation)
    → lookup k ops ≡ some op
    → lookup k (label key id ops) ≡ some (if k == key then record op { log_id = some id } else op)
unfolding lookup
lookup-label k key id [] op h = ground arith
lookup-label k key id ((j, x) ∷ ops) op h = ground (arith, lookup-label k key id ops op)

abbrev pub received : List ℕ → Header → Envelope
received bytes h = record { bytes = bytes; header = h; charge = length bytes }

pub route_found :
    (t : Session) (now key total : ℕ) (bytes : List ℕ) (h : Header) (q : Queues) (op : Operation)
    (p : Promise)
    → t.state ≡ opened q
    → from_id h.id (parity t.side) ≡ is_response
    → lookup h.id q.outstanding ≡ some key
    → lookup key q.operations ≡ some op
    → now < op.deadline
    → op.sender.response ≡ true
    → promise_at op.sender.promise t.ledger ≡ some p
    → reserve t.ledger.retained (length bytes) q.max_bytes ≡ some total
    → promise_at op.sender.promise (route now bytes h t).0.ledger
      ≡ some (settled_by (response (received bytes h)) p)
unfolding route take_response complete_response
route_found t now key total bytes h q op p e k r o d w l f =
    grind (arith, promise_at-send op.sender.promise op.sender)

abbrev queues_of : Queues → State → Queues
queues_of q (ended e) = q
queues_of q (opened q') = q'

pub record Taking (s : Session) (id : ℕ) (m : Outgoing) (q : Queues) : Type 0 where
  pub after : Queues
  pub shape : (take_outgoing s).0.state ≡ opened after
  pub routes : after.outstanding ≡ insert id m.key q.outstanding
  pub labels : after.operations ≡ label m.key id q.operations
  pub bytes : after.max_bytes ≡ q.max_bytes
  pub side : (take_outgoing s).0.side ≡ s.side
  pub ledger : (take_outgoing s).0.ledger ≡ s.ledger

pub take_outgoing-Taking :
    (s : Session) (id body : ℕ) (m : Outgoing) (q : Queues)
    → s.state ≡ opened q
    → (take_outgoing s).1 ≡ message id m
    → m.body ≡ request body
    → Taking s id m q
unfolding take_outgoing
take_outgoing-Taking s id body m q e t b = record {
  after = queues_of q (take_outgoing s).0.state;
  shape = ground arith;
  routes = ground arith;
  labels = ground arith;
  bytes = ground arith;
  side = ground arith;
  ledger = ground arith;
}

-- An answer reaches the promise of the request that it answers: where the writer of a reachable session
-- takes a request under an id, the request's operation has its deadline ahead and awaits an answer, and
-- its promise still exists, the response that arrives next with that id and fits the byte limit becomes
-- the promise's result.
pub route-take_outgoing :
    (side : Side) (s : Session) (now id body total : ℕ) (bytes : List ℕ) (h : Header) (m : Outgoing)
    (q : Queues) (op : Operation) (p : Promise)
    → Steps.Reach side s
    → s.state ≡ opened q
    → (take_outgoing s).1 ≡ message id m
    → m.body ≡ request body
    → lookup m.key q.operations ≡ some op
    → now < op.deadline
    → op.sender.response ≡ true
    → promise_at op.sender.promise s.ledger ≡ some p
    → p.alive ≡ true
    → reserve s.ledger.retained (length bytes) q.max_bytes ≡ some total
    → h.id ≡ id
    → promise_at op.sender.promise (route now bytes h (take_outgoing s).0).0.ledger
      ≡ some (settled_by (response (received bytes h)) p)
unfolding take_outgoing
route-take_outgoing side s now id body total bytes h m q op p r e t b o d w a l f i =
    let g : Taking s id m q = take_outgoing-Taking s id body m q e t b in
    let k = take_outgoing-fresh side s id body m q g.after r e g.shape t b in
    let o' = lookup-label m.key m.key id q.operations op o in
    route_found (take_outgoing s).0 now m.key total bytes h g.after (record op { log_id = some id })
      p g.shape (cc (g.side, k.0))
      (grind (arith, i, g.routes, lookup-insert id id m.key q.outstanding))
      (grind (arith, o', g.labels)) d w (cc (g.ledger)) (cc (g.ledger, g.bytes))
