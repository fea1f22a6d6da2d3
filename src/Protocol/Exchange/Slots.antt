-- ===== src/Protocol/Exchange/Slots.antt =====
-- The ids that a session has reserved, of src/protocol/session.rs: which steps reserve one, and whose
-- they are.
use wire_rs.Base.{
  ℕ, ◌+◌, ◌<◌, ◌≤◌, ◌≡◌, ◌≢◌, refl, true, false, Bool, List, [], ◌∷◌, arith, ◌==◌, if◌then◌else◌,
  count, lookup, count-remove_id, Bool-cases, inl, inr,
}
use wire_rs.Protocol.Ids.{Side, client, server, peer_of, parity, from_id, is_response}
use wire_rs.Protocol.Promises.{Header}
use wire_rs.Protocol.Session.{
  Session, State, opened, ended, Operation, Outgoing, Body, Answer, reply, request, new,
}
use wire_rs.Protocol.Session.Ending.{
  expire, expire_queues, retained_ids, is_some, release_reply, close, set_inbound_limits,
  set_autoreply_timeout,
}
use wire_rs.Protocol.Session.Queueing.{submit_request, submit_reply}
use wire_rs.Protocol.Session.Incoming.{route, receive}
use wire_rs.Protocol.Session.Writer.{
  message, take_outgoing, next_outgoing, record_write, forget_request,
}
use wire_rs.Protocol.Session.Steps
use wire_rs.Protocol.Session.Invariant.RequestIds.{IsPlaced, Reach-IsPlaced}

abbrev pub reserved_of : State → List ℕ
reserved_of (ended e) = []
reserved_of (opened q) = q.reserved

-- How many slots the id has.
abbrev pub slots : ℕ → Session → ℕ
slots k s = count k (reserved_of s.state)

-- Only the reader's step takes a message from the peer.
abbrev pub is_route : {s t : Session} → Steps.Step s t → Bool
is_route (Steps.requests m d now) = false
is_route (Steps.replies id a d now h) = false
is_route (Steps.expires now) = false
is_route (Steps.closes e now) = false
is_route (Steps.limits r b now) = false
is_route (Steps.retimes t) = false
is_route (Steps.routes now bytes h) = true
is_route Steps.receives = false
is_route (Steps.takes now) = false
is_route (Steps.writes key e now) = false
is_route (Steps.forgets id) = false
is_route (Steps.notifies i c l o h) = false
is_route (Steps.drops i o) = false
is_route (Steps.waits i r l h) = false
is_route (Steps.releases n h) = false

count-release_reply-le :
    (k : ℕ) (body : Body) (reserved : List ℕ)
    → count k (release_reply body reserved) ≤ count k reserved
count-release_reply-le k (request m) reserved = omega arith
count-release_reply-le k (reply id a) reserved = ground (arith, count-remove_id k id reserved)

count-retained_ids :
    (k : ℕ) (ops : List (ℕ × Operation)) (ms : List Outgoing) (reserved : List ℕ)
    → count k (retained_ids ops ms reserved) ≤ count k reserved
unfolding retained_ids
count-retained_ids k ops [] reserved = omega arith
count-retained_ids k ops (m ∷ ms) reserved = elim (Bool-cases (is_some (lookup m.key ops))) [
  | inl e ↦ rw e (count-retained_ids k ops ms reserved)
  | inr e ↦ rw e (
      omega (
        arith,
        count-retained_ids k ops ms (release_reply m.body reserved),
        count-release_reply-le k m.body reserved,
      ))
]

slots-expire : (k now : ℕ) (s : Session) → slots k (expire now s) ≤ slots k s
unfolding expire expire_queues
slots-expire k now s = grind (arith, count-retained_ids)

slots-next_outgoing : (k now : ℕ) (s : Session) → slots k (next_outgoing now s).0 ≤ slots k s
unfolding next_outgoing take_outgoing
slots-next_outgoing k now s =
    grind (arith, slots-expire k now s, λ (id : ℕ) (xs : List ℕ). count-remove_id k id xs)

-- No other step than the reader's reserves an id.
pub slots-Step :
    (k : ℕ) {s t : Session} (st : Steps.Step s t) → is_route st ≡ false → slots k t ≤ slots k s
unfolding submit_request submit_reply close set_inbound_limits set_autoreply_timeout forget_request
    receive record_write
slots-Step k {s} (Steps.requests m d now) e = ground arith
slots-Step k {s} (Steps.replies id a d now h) e =
    grind (arith, λ (xs : List ℕ). count-remove_id k id xs)
slots-Step k {s} (Steps.expires now) e = slots-expire k now s
slots-Step k {s} (Steps.closes x now) e = ground arith
slots-Step k {s} (Steps.limits r b now) e = ground arith
slots-Step k {s} (Steps.retimes t) e = ground arith
slots-Step k {s} (Steps.routes now bytes h) e = absurd (ground arith)
slots-Step k {s} Steps.receives e = ground arith
slots-Step k {s} (Steps.takes now) e = slots-next_outgoing k now s
slots-Step k {s} (Steps.writes key x now) e = ground arith
slots-Step k {s} (Steps.forgets id) e = ground arith
slots-Step k {s} (Steps.notifies i c l o h) e = ground arith
slots-Step k {s} (Steps.drops i o) e = ground arith
slots-Step k {s} (Steps.waits i r l h) e = ground arith
slots-Step k {s} (Steps.releases n h) e = ground arith

-- The reader reserves no id but that of a request, which is then the message's.
pub slots-route :
    (k now : ℕ) (bytes : List ℕ) (h : Header) (s : Session)
    → slots k (route now bytes h s).0 ≤ slots k s + (if h.id == k then 1 else 0)
unfolding route
slots-route k now bytes h s = grind arith

pub slots-route_response :
    (k now : ℕ) (bytes : List ℕ) (h : Header) (s : Session)
    → from_id h.id (parity s.side) ≡ is_response
    → slots k (route now bytes h s).0 ≤ slots k s
unfolding route
slots-route_response k now bytes h s e = grind arith

pub side-Step : {s t : Session} → Steps.Step s t → t.side ≡ s.side
unfolding submit_request submit_reply close set_inbound_limits set_autoreply_timeout forget_request
    receive route next_outgoing record_write expire take_outgoing
side-Step {s} (Steps.requests m d now) = ground arith
side-Step {s} (Steps.replies id a d now h) = ground arith
side-Step {s} (Steps.expires now) = ground arith
side-Step {s} (Steps.closes x now) = ground arith
side-Step {s} (Steps.limits r b now) = ground arith
side-Step {s} (Steps.retimes t) = ground arith
side-Step {s} (Steps.routes now bytes h) = ground arith
side-Step {s} Steps.receives = ground arith
side-Step {s} (Steps.takes now) = ground arith
side-Step {s} (Steps.writes key x now) = ground arith
side-Step {s} (Steps.forgets id) = ground arith
side-Step {s} (Steps.notifies i c l o h) = refl
side-Step {s} (Steps.drops i o) = refl
side-Step {s} (Steps.waits i r l h) = refl
side-Step {s} (Steps.releases n h) = refl

Step-foreign :
    (k : ℕ) {s t : Session}
    → Steps.Step s t
    → from_id k (parity s.side) ≡ is_response
    → slots k s ≡ 0
    → slots k t ≡ 0
Step-foreign k {s} (Steps.requests m d now) e v =
    omega (arith, slots-Step k {s = s} (Steps.requests m d now) refl, v)
Step-foreign k {s} (Steps.replies id a d now h) e v =
    omega (arith, slots-Step k {s = s} (Steps.replies id a d now h) refl, v)
Step-foreign k {s} (Steps.expires now) e v =
    omega (arith, slots-Step k {s = s} (Steps.expires now) refl, v)
Step-foreign k {s} (Steps.closes x now) e v =
    omega (arith, slots-Step k {s = s} (Steps.closes x now) refl, v)
Step-foreign k {s} (Steps.limits r b now) e v =
    omega (arith, slots-Step k {s = s} (Steps.limits r b now) refl, v)
Step-foreign k {s} (Steps.retimes t) e v =
    omega (arith, slots-Step k {s = s} (Steps.retimes t) refl, v)
Step-foreign k {s} (Steps.routes now bytes h) e v = elim (Bool-cases (h.id == k)) [
  | inl same ↦
      let kind : h.id ≡ k = ground arith in
      omega (arith, slots-route_response k now bytes h s (rw kind e), v)
  | inr other ↦ ground (arith, slots-route k now bytes h s)
]
Step-foreign k {s} Steps.receives e v = omega (arith, slots-Step k {s = s} Steps.receives refl, v)
Step-foreign k {s} (Steps.takes now) e v =
    omega (arith, slots-Step k {s = s} (Steps.takes now) refl, v)
Step-foreign k {s} (Steps.writes key x now) e v =
    omega (arith, slots-Step k {s = s} (Steps.writes key x now) refl, v)
Step-foreign k {s} (Steps.forgets id) e v =
    omega (arith, slots-Step k {s = s} (Steps.forgets id) refl, v)
Step-foreign k {s} (Steps.notifies i c l o h) e v =
    omega (arith, slots-Step k {s = s} (Steps.notifies i c l o h) refl, v)
Step-foreign k {s} (Steps.drops i o) e v =
    omega (arith, slots-Step k {s = s} (Steps.drops i o) refl, v)
Step-foreign k {s} (Steps.waits i r l h) e v =
    omega (arith, slots-Step k {s = s} (Steps.waits i r l h) refl, v)
Step-foreign k {s} (Steps.releases n h) e v =
    omega (arith, slots-Step k {s = s} (Steps.releases n h) refl, v)

-- No id that is a response for this side is reserved.
Reach-foreign :
    (side : Side) (s : Session) (k : ℕ)
    → Steps.Reach side s
    → from_id k (parity s.side) ≡ is_response
    → slots k s ≡ 0
unfolding new
Reach-foreign side s k Steps.here e = refl
Reach-foreign side t k (Steps.next {s} r st) e =
    let own : from_id k (parity s.side) ≡ is_response = rw (← side-Step st) e in
    Step-foreign k st own (Reach-foreign side s k r own)

-- What a side requests, its peer answers.
peer_kind :
    (side : Side) (id : ℕ)
    → from_id id (parity side) ≢ is_response
    → from_id id (parity (peer_of side)) ≡ is_response
unfolding from_id parity
peer_kind client id n = ground arith
peer_kind server id n = ground arith

reserved_of_front :
    (s : Session) (id : ℕ) (m : Outgoing) (a : Answer)
    → IsPlaced id s
    → (take_outgoing s).1 ≡ message id m
    → m.body ≡ reply id a
    → 0 < slots id s
unfolding take_outgoing
reserved_of_front s id m a v e b = ground (arith, v)

-- The id of a reply that the writer takes is a response for the peer.
pub replied-foreign :
    (side : Side) (s : Session) (id : ℕ) (m : Outgoing) (a : Answer)
    → Steps.Reach side s
    → (take_outgoing s).1 ≡ message id m
    → m.body ≡ reply id a
    → from_id id (parity (peer_of s.side)) ≡ is_response
replied-foreign side s id m a r e b =
    let held = reserved_of_front s id m a (Reach-IsPlaced side s id r) e b in
    peer_kind s.side id (λ k. absurd (omega (arith, held, Reach-foreign side s id r k)))
