-- ===== src/Protocol/Session/Invariant/Kinds.antt =====
-- The operations that the peer's responses are routed to, and their kind.
use wire_rs.Base.{
  ℕ, suc, ◌+◌, ◌<◌, ◌≤◌, ◌≡◌, refl, true, Option, some, List, [], ◌∷◌, ◌++◌, arith, ◌==◌,
  if◌then◌else◌, lookup, remove, insert, Bool-cases, inl, inr,
}
use wire_rs.Protocol.Ids.{Side}
use wire_rs.Protocol.Errors.{Error}
use wire_rs.Protocol.Promises.{Header}
use wire_rs.Protocol.Session.{
  Session, Queues, State, opened, ended, Operation, Outgoing, Body, Answer, request, reply, new,
}
use wire_rs.Protocol.Session.Ending.{
  expire, expire_queues, live, retained_messages, is_some, close, set_inbound_limits,
  set_autoreply_timeout,
}
use wire_rs.Protocol.Session.Queueing.{submit_request, submit_reply}
use wire_rs.Protocol.Session.Incoming.{route, receive}
use wire_rs.Protocol.Session.Writer.{
  label, take_outgoing, next_outgoing, record_write, forget_request,
}
use wire_rs.Protocol.Session.Steps

-- How many routes and queued requests name the operation `k`.
abbrev pub count_routes : ℕ → List (ℕ × ℕ) → ℕ
count_routes k [] = 0
count_routes k ((id, key) ∷ m) = if key == k then suc (count_routes k m) else count_routes k m

abbrev pub asks_body : ℕ → ℕ → Body → ℕ
asks_body k key (request m) = if key == k then 1 else 0
asks_body k key (reply id a) = 0

abbrev pub count_asks : ℕ → List Outgoing → ℕ
count_asks k [] = 0
count_asks k (m ∷ ms) = asks_body k m.key m.body + count_asks k ms

-- How many operations under `k` are replies.
abbrev pub count_writes : ℕ → List (ℕ × Operation) → ℕ
count_writes k [] = 0
count_writes k ((key, op) ∷ ops) =
    if key == k
    then (if op.sender.response then count_writes k ops else suc (count_writes k ops))
    else count_writes k ops

pub record Asks (k next_key : ℕ) (q : Queues) : Type 0 where
  pub old : 0 < count_routes k q.outstanding + count_asks k q.outgoing → k < next_key
  pub asking :
      0 < count_routes k q.outstanding + count_asks k q.outgoing → count_writes k q.operations ≡ 0
  pub fresh : next_key ≤ k → count_writes k q.operations ≡ 0

abbrev AsksIn : ℕ → ℕ → State → Type 0
AsksIn k next_key (ended e) = Unit {0}
AsksIn k next_key (opened q) = Asks k next_key q

abbrev pub IsAsking : ℕ → Session → Type 0
IsAsking k s = AsksIn k s.next_key s.state

count_writes-live :
    (k now : ℕ) (ops : List (ℕ × Operation)) → count_writes k (live now ops) ≤ count_writes k ops
unfolding live
count_writes-live k now [] = ground arith
count_writes-live k now ((key, op) ∷ ops) = ground (arith, count_writes-live k now ops)

count_writes-remove :
    (k j : ℕ) (ops : List (ℕ × Operation)) → count_writes k (remove j ops) ≤ count_writes k ops
unfolding remove
count_writes-remove k j [] = ground arith
count_writes-remove k j ((key, op) ∷ ops) = ground (arith, count_writes-remove k j ops)

count_writes-label :
    (k key id : ℕ) (ops : List (ℕ × Operation))
    → count_writes k (label key id ops) ≡ count_writes k ops
count_writes-label k key id [] = refl
count_writes-label k key id ((j, op) ∷ ops) = ground (arith, count_writes-label k key id ops)

count_asks-retained :
    (k : ℕ) (ops : List (ℕ × Operation)) (ms : List Outgoing)
    → count_asks k (retained_messages ops ms) ≤ count_asks k ms
unfolding retained_messages
count_asks-retained k ops [] = ground arith
count_asks-retained k ops (m ∷ ms) = elim (Bool-cases (is_some (lookup m.key ops))) [
  | inl e ↦ rw e (omega (arith, count_asks-retained k ops ms))
  | inr e ↦ rw e (omega (arith, count_asks-retained k ops ms))
]

count_asks-append :
    (k : ℕ) (xs ys : List Outgoing) → count_asks k (xs ++ ys) ≡ count_asks k xs + count_asks k ys
count_asks-append k [] ys = ground arith
count_asks-append k (m ∷ xs) ys = omega (arith, count_asks-append k xs ys)

count_routes-remove :
    (k id : ℕ) (m : List (ℕ × ℕ)) → count_routes k (remove id m) ≤ count_routes k m
unfolding remove
count_routes-remove k id [] = ground arith
count_routes-remove k id ((j, key) ∷ m) = ground (arith, count_routes-remove k id m)

pub routes_of_lookup : (k id : ℕ) (m : List (ℕ × ℕ)) → lookup id m ≡ some k → 0 < count_routes k m
unfolding lookup
routes_of_lookup k id [] h = ground arith
routes_of_lookup k id ((j, key) ∷ m) h = ground (arith, routes_of_lookup k id m)

pub requests_of_lookup :
    (k : ℕ) (ops : List (ℕ × Operation)) (op : Operation)
    → count_writes k ops ≡ 0
    → lookup k ops ≡ some op
    → op.sender.response ≡ true
unfolding lookup
requests_of_lookup k [] op w h = ground arith
requests_of_lookup k ((key, x) ∷ ops) op w h = ground (arith, requests_of_lookup k ops op)

submit_request-IsAsking :
    (k message deadline now : ℕ) (s : Session)
    → IsAsking k s
    → IsAsking k (submit_request message deadline now s).0
unfolding submit_request
submit_request-IsAsking k message deadline now s v = grind (arith, count_asks-append)

submit_reply-IsAsking :
    (k id : ℕ) (answer : Answer) (deadline now : ℕ) (s : Session)
    → IsAsking k s
    → IsAsking k (submit_reply id answer deadline now s).0
unfolding submit_reply
submit_reply-IsAsking k id answer deadline now s v = grind (arith, count_asks-append)

expire-IsAsking : (k now : ℕ) (s : Session) → IsAsking k s → IsAsking k (expire now s)
unfolding expire expire_queues
expire-IsAsking k now s v = grind (arith, count_writes-live, count_asks-retained)

route-IsAsking :
    (k now : ℕ) (bytes : List ℕ) (h : Header) (s : Session)
    → IsAsking k s
    → IsAsking k (route now bytes h s).0
unfolding route
route-IsAsking k now bytes h s v = grind (arith, count_routes-remove, count_writes-remove)

take_outgoing-IsAsking : (k : ℕ) (s : Session) → IsAsking k s → IsAsking k (take_outgoing s).0
unfolding take_outgoing insert
take_outgoing-IsAsking k s v = grind (arith, count_routes-remove, count_writes-label)

next_outgoing-IsAsking :
    (k now : ℕ) (s : Session) → IsAsking k s → IsAsking k (next_outgoing now s).0
unfolding next_outgoing
next_outgoing-IsAsking k now s v =
    grind (arith, expire-IsAsking k now s v, take_outgoing-IsAsking k (expire now s))

record_write-IsAsking :
    (k key : ℕ) (error : Option Error) (now : ℕ) (s : Session)
    → IsAsking k s
    → IsAsking k (record_write key error now s)
unfolding record_write
record_write-IsAsking k key error now s v = grind (arith, count_writes-remove)

pub Step-IsAsking : (k : ℕ) {s t : Session} → Steps.Step s t → IsAsking k s → IsAsking k t
unfolding close set_inbound_limits set_autoreply_timeout forget_request receive
Step-IsAsking k {s} (Steps.requests m d now) v = submit_request-IsAsking k m d now s v
Step-IsAsking k {s} (Steps.replies id a d now h) v = submit_reply-IsAsking k id a d now s v
Step-IsAsking k {s} (Steps.expires now) v = expire-IsAsking k now s v
Step-IsAsking k {s} (Steps.closes e now) v = ground arith
Step-IsAsking k {s} (Steps.limits r b now) v = ground arith
Step-IsAsking k {s} (Steps.retimes t) v = ground arith
Step-IsAsking k {s} (Steps.routes now bytes h) v = route-IsAsking k now bytes h s v
Step-IsAsking k {s} Steps.receives v = ground arith
Step-IsAsking k {s} (Steps.takes now) v = next_outgoing-IsAsking k now s v
Step-IsAsking k {s} (Steps.writes key e now) v = record_write-IsAsking k key e now s v
Step-IsAsking k {s} (Steps.forgets id) v = grind (arith, count_routes-remove)
Step-IsAsking k (Steps.notifies i c l o h) v = v
Step-IsAsking k (Steps.drops i o) v = v
Step-IsAsking k (Steps.waits i r l h) v = v
Step-IsAsking k (Steps.releases n h) v = v

pub Reach-IsAsking : (side : Side) (s : Session) (k : ℕ) → Steps.Reach side s → IsAsking k s
unfolding new
Reach-IsAsking side s k Steps.here = ground arith
Reach-IsAsking side t k (Steps.next r st) = Step-IsAsking k st (Reach-IsAsking side _ k r)
