-- ===== src/Protocol/Session/Invariant/RequestIds.antt =====
-- The slots of accepted peer requests: `reserved_ids` against what holds them.
use wire_rs.Base.{
  ℕ, suc, ◌+◌, ◌≤◌, ◌≡◌, inl, inr, true, Option, List, [], ◌∷◌, ◌++◌, arith, length, ◌==◌,
  if◌then◌else◌, count, contains, lookup, Bool-cases, count-contains, contains-count,
  count-remove_id, length-remove_id-le,
}
use wire_rs.Protocol.Ids.{Side}
use wire_rs.Protocol.Errors.{Error}
use wire_rs.Protocol.Promises.{Envelope, Header}
use wire_rs.Protocol.Session.{
  Session, State, Queues, opened, ended, Operation, Outgoing, Body, Answer, request, reply, new,
}
use wire_rs.Protocol.Session.Ending.{
  expire, expire_queues, live, retained_ids, retained_messages, is_some, release_reply, close,
  set_inbound_limits, set_autoreply_timeout,
}
use wire_rs.Protocol.Session.Queueing.{submit_request, submit_reply}
use wire_rs.Protocol.Session.Incoming.{route, receive}
use wire_rs.Protocol.Session.Writer.{take_outgoing, next_outgoing, record_write, forget_request}
use wire_rs.Protocol.Session.Steps

abbrev pub count_incoming : ℕ → List (ℕ × Envelope) → ℕ
count_incoming k [] = 0
count_incoming k ((id, e) ∷ rest) =
    if id == k then suc (count_incoming k rest) else count_incoming k rest

abbrev pub count_body : ℕ → Body → ℕ
count_body k (request m) = 0
count_body k (reply id a) = if id == k then 1 else 0

abbrev pub count_replies : ℕ → List Outgoing → ℕ
count_replies k [] = 0
count_replies k (m ∷ ms) = count_body k m.body + count_replies k ms

-- A reserved id is a queued request's, an obligation's or a queued reply's, and only one of them.
pub record Placed (k : ℕ) (obligations : List ℕ) (q : Queues) : Type 0 where
  pub placed :
      count k q.reserved
      ≡ count_incoming k q.incoming + count k obligations + count_replies k q.outgoing
  pub once : count k q.reserved ≤ 1
  pub limited : length q.reserved ≤ q.max_requests

abbrev PlacedIn : ℕ → List ℕ → State → Type 0
PlacedIn k obligations (ended e) = Unit {0}
PlacedIn k obligations (opened q) = Placed k obligations q

abbrev pub IsPlaced : ℕ → Session → Type 0
IsPlaced k s = PlacedIn k s.obligations s.state

count_incoming-append :
    (k : ℕ) (xs ys : List (ℕ × Envelope))
    → count_incoming k (xs ++ ys) ≡ count_incoming k xs + count_incoming k ys
count_incoming-append k [] ys = ground arith
count_incoming-append k ((id, e) ∷ xs) ys = ground (arith, count_incoming-append k xs ys)

count_replies-append :
    (k : ℕ) (xs ys : List Outgoing)
    → count_replies k (xs ++ ys) ≡ count_replies k xs + count_replies k ys
count_replies-append k [] ys = ground arith
count_replies-append k (m ∷ xs) ys = ground (arith, count_replies-append k xs ys)

count-release_reply :
    (k : ℕ) (body : Body) (reserved : List ℕ)
    → count k reserved ≤ 1
    → count_body k body ≤ count k reserved
    → (count k (release_reply body reserved) + count_body k body ≡ count k reserved)
      × (length (release_reply body reserved) ≤ length reserved)
count-release_reply k (request m) reserved o b = ground arith
count-release_reply k (reply id a) reserved o b =
    ground (arith, count-remove_id k id reserved, length-remove_id-le id reserved)

-- Discarding messages whose operations are gone takes the same ids from both sides.
count-retained :
    (k c : ℕ) (ops : List (ℕ × Operation)) (ms : List Outgoing) (reserved : List ℕ)
    → count k reserved ≡ c + count_replies k ms
    → count k reserved ≤ 1
    → (count k (retained_ids ops ms reserved) ≡ c + count_replies k (retained_messages ops ms))
      × (count k (retained_ids ops ms reserved) ≤ 1)
      × (length (retained_ids ops ms reserved) ≤ length reserved)
unfolding retained_ids retained_messages
count-retained k c ops [] reserved h o = ground arith
count-retained k c ops (m ∷ ms) reserved h o = elim (Bool-cases (is_some (lookup m.key ops))) [
  | inl kept ↦ rw kept (
      let (e, l, n) = count-retained k (c + count_body k m.body) ops ms reserved (omega arith) o in
      (omega arith, l, n))
  | inr gone ↦ rw gone (
      let (r, l) = count-release_reply k m.body reserved o (omega arith) in
      let (e, l', n) =
        count-retained k c ops ms (release_reply m.body reserved) (omega arith) (omega arith) in
      (e, l', omega arith))
]

expire-IsPlaced : (k now : ℕ) (s : Session) → IsPlaced k s → IsPlaced k (expire now s)
unfolding expire expire_queues
expire-IsPlaced k now s v =
    (elim s.state
        as (λ st. PlacedIn k s.obligations st → IsPlaced k (expire now (record s { state = st }))) [
          | ended e ↦ λ v. tt
          | opened q ↦ λ v. ground (
            arith,
            count-retained k (count_incoming k q.incoming + count k s.obligations)
                (live now q.operations) q.outgoing q.reserved,
          )
        ])
      v

submit_request-IsPlaced :
    (k message deadline now : ℕ) (s : Session)
    → IsPlaced k s
    → IsPlaced k (submit_request message deadline now s).0
unfolding submit_request
submit_request-IsPlaced k message deadline now s v = grind (arith, count_replies-append)

submit_reply-IsPlaced :
    (k id : ℕ) (answer : Answer) (deadline now : ℕ) (s : Session)
    → contains id s.obligations ≡ true
    → IsPlaced k s
    → IsPlaced k (submit_reply id answer deadline now s).0
unfolding submit_reply
submit_reply-IsPlaced k id answer deadline now s h v =
    grind (arith, contains-count, count-remove_id, count_replies-append, length-remove_id-le)

route-IsPlaced :
    (k now : ℕ) (bytes : List ℕ) (h : Header) (s : Session)
    → IsPlaced k s
    → IsPlaced k (route now bytes h s).0
unfolding route
route-IsPlaced k now bytes h s v = grind (arith, count-contains, count_incoming-append)

receive-IsPlaced : (k : ℕ) (s : Session) → IsPlaced k s → IsPlaced k (receive s).0
unfolding receive
receive-IsPlaced k s v = ground arith

take_outgoing-IsPlaced : (k : ℕ) (s : Session) → IsPlaced k s → IsPlaced k (take_outgoing s).0
unfolding take_outgoing
take_outgoing-IsPlaced k s v = grind (arith, count-remove_id, length-remove_id-le)

next_outgoing-IsPlaced :
    (k now : ℕ) (s : Session) → IsPlaced k s → IsPlaced k (next_outgoing now s).0
unfolding next_outgoing
next_outgoing-IsPlaced k now s v =
    grind (arith, expire-IsPlaced k now s v, take_outgoing-IsPlaced k (expire now s))

close-IsPlaced :
    (k : ℕ) (e : Error) (now : ℕ) (s : Session) → IsPlaced k s → IsPlaced k (close e now s)
unfolding close
close-IsPlaced k e now s v = ground arith

set_inbound_limits-IsPlaced :
    (k requests bytes now : ℕ) (s : Session)
    → IsPlaced k s
    → IsPlaced k (set_inbound_limits requests bytes now s)
unfolding set_inbound_limits close
set_inbound_limits-IsPlaced k requests bytes now s v = ground arith

record_write-IsPlaced :
    (k key : ℕ) (error : Option Error) (now : ℕ) (s : Session)
    → IsPlaced k s
    → IsPlaced k (record_write key error now s)
unfolding record_write
record_write-IsPlaced k key error now s v = ground arith

-- Every step keeps the slots in order.
pub Step-IsPlaced : (k : ℕ) {s t : Session} → Steps.Step s t → IsPlaced k s → IsPlaced k t
unfolding set_autoreply_timeout forget_request
Step-IsPlaced k {s} (Steps.requests m d now) v = submit_request-IsPlaced k m d now s v
Step-IsPlaced k {s} (Steps.replies id a d now h) v = submit_reply-IsPlaced k id a d now s h v
Step-IsPlaced k {s} (Steps.expires now) v = expire-IsPlaced k now s v
Step-IsPlaced k {s} (Steps.closes e now) v = close-IsPlaced k e now s v
Step-IsPlaced k {s} (Steps.limits r b now) v = set_inbound_limits-IsPlaced k r b now s v
Step-IsPlaced k {s} (Steps.retimes t) v = ground arith
Step-IsPlaced k {s} (Steps.routes now bytes h) v = route-IsPlaced k now bytes h s v
Step-IsPlaced k {s} Steps.receives v = receive-IsPlaced k s v
Step-IsPlaced k {s} (Steps.takes now) v = next_outgoing-IsPlaced k now s v
Step-IsPlaced k {s} (Steps.writes key e now) v = record_write-IsPlaced k key e now s v
Step-IsPlaced k {s} (Steps.forgets id) v = ground arith
Step-IsPlaced k (Steps.notifies i c l o h) v = v
Step-IsPlaced k (Steps.drops i o) v = v
Step-IsPlaced k (Steps.waits i r l h) v = v
Step-IsPlaced k (Steps.releases n h) v = v

-- Whatever the threads do, while the session is open: each id is reserved at most once, and it is
-- reserved exactly if one queued request, one held responder or one queued reply has it; and at most
-- `max_requests` ids are reserved.
pub Reach-IsPlaced : (side : Side) (s : Session) (k : ℕ) → Steps.Reach side s → IsPlaced k s
unfolding new
Reach-IsPlaced side s k Steps.here = ground arith
Reach-IsPlaced side t k (Steps.next r st) = Step-IsPlaced k st (Reach-IsPlaced side _ k r)
