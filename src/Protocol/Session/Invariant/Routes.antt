-- ===== src/Protocol/Session/Invariant/Routes.antt =====
-- The request ids that a session allocates, and the routes of the answers.
use wire_rs.Base.{
  ℕ, ◌^◌, ◌<◌, ◌≤◌, ◌≡◌, subst, Option, none, some, List, [], ◌∷◌, arith, lookup, remove, insert,
  Keyed, Keyed-mono, Keyed-remove, Keyed-insert, lookup_above,
}
use wire_rs.Protocol.Ids.{
  Side, client, server, peer_of, parity_of, parity, first, from_id, is_request, is_response,
}
use wire_rs.Protocol.Session.{Session, State, Queues, opened, ended, Outgoing, request, new}
use wire_rs.Protocol.Session.Ending.{
  expire, expire_queues, close, set_inbound_limits, set_autoreply_timeout,
}
use wire_rs.Protocol.Session.Queueing.{submit_request, submit_reply}
use wire_rs.Protocol.Session.Incoming.{route, receive}
use wire_rs.Protocol.Session.Writer.{
  next_request_id, message, take_outgoing, next_outgoing, record_write, forget_request,
}
use wire_rs.Protocol.Session.Steps

-- All ids below it have been allocated or are of the peer.
abbrev pub bound : Option ℕ → ℕ
bound none = 2 ^ 64
bound (some id) = id

abbrev pub Allocatable : Side → Option ℕ → Type 0
Allocatable side none = Unit {0}
Allocatable side (some id) = (parity_of id ≡ parity side) × (id < 2 ^ 64)

abbrev pub Own : Side → List (ℕ × ℕ) → Type 0
Own side [] = Unit {0}
Own side ((id, key) ∷ m) = (parity_of id ≡ parity side) × Own side m

pub record Routes (side : Side) (q : Queues) : Type 0 where
  pub next : Allocatable side q.next_id
  pub keyed : Keyed (bound q.next_id) q.outstanding
  pub own : Own side q.outstanding

abbrev RoutesIn : Side → State → Type 0
RoutesIn side (ended e) = Unit {0}
RoutesIn side (opened q) = Routes side q

abbrev pub IsRouted : Session → Type 0
IsRouted s = RoutesIn s.side s.state

Own-remove : (side : Side) (id : ℕ) (m : List (ℕ × ℕ)) → Own side m → Own side (remove id m)
unfolding remove
Own-remove side id [] v = tt
Own-remove side id ((j, key) ∷ m) v = ground (arith, Own-remove side id m v.1)

bound-next_request_id :
    (side : Side) (id : ℕ)
    → Allocatable side (some id)
    → Allocatable side (next_request_id id) × (id < bound (next_request_id id))
unfolding next_request_id parity_of
bound-next_request_id side id v = ground arith

request-Routes :
    (side : Side) (id key : ℕ) (q : Queues)
    → q.next_id ≡ some id
    → Routes side q
    → Allocatable side (next_request_id id)
      × Keyed (bound (next_request_id id)) (insert id key q.outstanding)
      × Own side (insert id key q.outstanding)
unfolding insert
request-Routes side id key q e v =
    let n : Allocatable side (some id) = subst (Allocatable side) e v.next in
    let (a, b) = bound-next_request_id side id n in
    let k : Keyed id q.outstanding = subst (λ o. Keyed (bound o) q.outstanding) e v.keyed in
    (
      a,
      Keyed-insert _ id key q.outstanding b (Keyed-mono id _ q.outstanding (omega arith) k),
      (n.0, Own-remove side id q.outstanding v.own),
    )

take_outgoing-IsRouted : (s : Session) → IsRouted s → IsRouted (take_outgoing s).0
unfolding take_outgoing
take_outgoing-IsRouted s v = grind (arith, request-Routes s.side)

expire-IsRouted : (now : ℕ) (s : Session) → IsRouted s → IsRouted (expire now s)
unfolding expire expire_queues
expire-IsRouted now s v = ground arith

pub Step-IsRouted : {s t : Session} → Steps.Step s t → IsRouted s → IsRouted t
unfolding submit_request submit_reply close set_inbound_limits set_autoreply_timeout forget_request
    receive route next_outgoing record_write
Step-IsRouted {s} (Steps.requests m d now) v = ground arith
Step-IsRouted {s} (Steps.replies id a d now h) v = ground arith
Step-IsRouted {s} (Steps.expires now) v = expire-IsRouted now s v
Step-IsRouted {s} (Steps.closes e now) v = ground arith
Step-IsRouted {s} (Steps.limits r b now) v = ground arith
Step-IsRouted {s} (Steps.retimes t) v = ground arith
Step-IsRouted {s} (Steps.routes now bytes h) v = grind (arith, Keyed-remove, Own-remove)
Step-IsRouted {s} Steps.receives v = ground arith
Step-IsRouted {s} (Steps.takes now) v =
    grind (arith, expire-IsRouted now s v, take_outgoing-IsRouted (expire now s))
Step-IsRouted {s} (Steps.writes key e now) v = ground arith
Step-IsRouted {s} (Steps.forgets id) v = grind (arith, Keyed-remove, Own-remove)
Step-IsRouted (Steps.notifies i c l o h) v = v
Step-IsRouted (Steps.drops i o) v = v
Step-IsRouted (Steps.waits i r l h) v = v
Step-IsRouted (Steps.releases n h) v = v

-- Whatever the threads do, while the session is open: the ids that await an answer are distinct, of
-- this side's parity and below the next id to allocate, which has the same parity and fits 64 bits.
pub Reach-IsRouted : (side : Side) (s : Session) → Steps.Reach side s → IsRouted s
unfolding new first parity parity_of
Reach-IsRouted client s Steps.here = ground arith
Reach-IsRouted server s Steps.here = ground arith
Reach-IsRouted side t (Steps.next r st) = Step-IsRouted st (Reach-IsRouted side _ r)

pub from_id_own :
    (side : Side) (id : ℕ)
    → parity_of id ≡ parity side
    → (from_id id (parity side) ≡ is_response) × (from_id id (parity (peer_of side)) ≡ is_request)
unfolding parity from_id
from_id_own client id h = ground arith
from_id_own server id h = ground arith

-- The id under which the writer of a reachable session sends a request is a response for this side and
-- a request for the peer; no request is outstanding under it; and it is not below the bound of the ids
-- allocated so far, but below that of the ids allocated afterwards.
pub take_outgoing-fresh :
    (side : Side) (s : Session) (id body : ℕ) (m : Outgoing) (q q' : Queues)
    → Steps.Reach side s
    → s.state ≡ opened q
    → (take_outgoing s).0.state ≡ opened q'
    → (take_outgoing s).1 ≡ message id m
    → m.body ≡ request body
    → (from_id id (parity s.side) ≡ is_response)
      × (from_id id (parity (peer_of s.side)) ≡ is_request)
      × (lookup id q.outstanding ≡ none)
      × (bound q.next_id ≤ id)
      × (id < bound q'.next_id)
unfolding take_outgoing
take_outgoing-fresh side s id body m q q' r e e' t b =
    let v : IsRouted s = Reach-IsRouted side s r in
    grind
      (arith, from_id_own s.side, lookup_above id id q.outstanding, bound-next_request_id s.side)

-- All ids that a session can have allocated are below its ceiling.
abbrev pub ceiling : State → ℕ
ceiling (ended e) = 2 ^ 64
ceiling (opened q) = bound q.next_id

bound-le : (side : Side) (o : Option ℕ) → Allocatable side o → bound o ≤ 2 ^ 64
bound-le side none v = ground arith
bound-le side (some id) v = ground arith

take_outgoing-ceiling :
    (s : Session) → IsRouted s → ceiling s.state ≤ ceiling (take_outgoing s).0.state
unfolding take_outgoing
take_outgoing-ceiling s v = grind (arith, bound-next_request_id s.side)

-- A request's id lies between the ceilings before and after it is taken.
pub take_outgoing-between :
    (s : Session) (id body : ℕ) (m : Outgoing)
    → IsRouted s
    → (take_outgoing s).1 ≡ message id m
    → m.body ≡ request body
    → (ceiling s.state ≤ id) × (id < ceiling (take_outgoing s).0.state)
unfolding take_outgoing
take_outgoing-between s id body m v e b = grind (arith, bound-next_request_id s.side)

expire-ceiling :
    (now : ℕ) (s : Session) → IsRouted s → ceiling s.state ≤ ceiling (expire now s).state
unfolding expire expire_queues
expire-ceiling now s v = ground arith

-- No step of a session in order lowers the bound below which all its allocated ids are, so an id that
-- was allocated is not allocated again.
pub ceiling-Step : {s t : Session} → Steps.Step s t → IsRouted s → ceiling s.state ≤ ceiling t.state
unfolding submit_request submit_reply close set_inbound_limits set_autoreply_timeout forget_request
    receive route next_outgoing record_write
ceiling-Step {s} (Steps.requests m d now) v = ground arith
ceiling-Step {s} (Steps.replies id a d now h) v = ground arith
ceiling-Step {s} (Steps.expires now) v = expire-ceiling now s v
ceiling-Step {s} (Steps.closes x now) v = grind (arith, bound-le)
ceiling-Step {s} (Steps.limits r b now) v = grind (arith, bound-le)
ceiling-Step {s} (Steps.retimes t) v = ground arith
ceiling-Step {s} (Steps.routes now bytes h) v = ground arith
ceiling-Step {s} Steps.receives v = ground arith
ceiling-Step {s} (Steps.takes now) v =
    grind
      (arith, expire-ceiling now s v, expire-IsRouted now s v, take_outgoing-ceiling (expire now s))
ceiling-Step {s} (Steps.writes key x now) v = ground arith
ceiling-Step {s} (Steps.forgets id) v = ground arith
ceiling-Step {s} (Steps.notifies i c l o h) v = ground arith
ceiling-Step {s} (Steps.drops i o) v = ground arith
ceiling-Step {s} (Steps.waits i r l h) v = ground arith
ceiling-Step {s} (Steps.releases n h) v = ground arith
