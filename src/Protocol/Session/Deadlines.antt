-- ===== src/Protocol/Session/Deadlines.antt =====
-- The deadlines of the operations: `expire` and `next_outgoing` of src/protocol/session.rs.
use wire_rs.Base.{ℕ, ◌<◌, ◌≡◌, some, List, [], ◌∷◌, arith, lookup, Option-cases, inl, inr}
use wire_rs.Protocol.Errors.{Error}
use wire_rs.Protocol.Session.{Session, State, Queues, opened, ended, Operation, Outgoing}
use wire_rs.Protocol.Session.Ending.{
  expire, expire_queues, live, retained_messages, close, set_inbound_limits, set_autoreply_timeout,
}
use wire_rs.Protocol.Session.Queueing.{submit_request, submit_reply}
use wire_rs.Protocol.Session.Incoming.{route, receive}
use wire_rs.Protocol.Session.Writer.{
  message, take_outgoing, next_outgoing, record_write, forget_request,
}
use wire_rs.Protocol.Session.Steps

-- The operation `k` exists, and its deadline is still ahead.
abbrev pub IsLive : ℕ → ℕ → List (ℕ × Operation) → Type 0
IsLive now k ops = (op : Operation) × (lookup k ops ≡ some op) × (now < op.deadline)

abbrev AllAhead : ℕ → List (ℕ × Operation) → Type 0
AllAhead now [] = Unit {0}
AllAhead now ((k, op) ∷ ops) = (now < op.deadline) × AllAhead now ops

abbrev AllLive : ℕ → List (ℕ × Operation) → List Outgoing → Type 0
AllLive now ops [] = Unit {0}
AllLive now ops (m ∷ ms) = IsLive now m.key ops × AllLive now ops ms

abbrev pub IsFreshIn : ℕ → State → Type 0
IsFreshIn now (ended e) = Unit {0}
IsFreshIn now (opened q) = AllAhead now q.operations × AllLive now q.operations q.outgoing

live-AllAhead : (now : ℕ) (ops : List (ℕ × Operation)) → AllAhead now (live now ops)
unfolding live
live-AllAhead now [] = tt
live-AllAhead now ((k, op) ∷ ops) = ground (arith, live-AllAhead now ops)

lookup-AllAhead :
    (now k : ℕ) (op : Operation) (ops : List (ℕ × Operation))
    → AllAhead now ops
    → lookup k ops ≡ some op
    → now < op.deadline
unfolding lookup
lookup-AllAhead now k op [] v e = ground arith
lookup-AllAhead now k op ((j, x) ∷ ops) v e = ground (arith, lookup-AllAhead now k op ops v.1)

retained-AllLive :
    (now : ℕ) (ops : List (ℕ × Operation)) (ms : List Outgoing)
    → AllAhead now ops
    → AllLive now ops (retained_messages ops ms)
unfolding retained_messages
retained-AllLive now ops [] v = tt
retained-AllLive now ops (m ∷ ms) v = elim (Option-cases (lookup m.key ops)) [
  | inl e ↦ rw e (retained-AllLive now ops ms v)
  | inr (op, e) ↦
      rw e ((op, e, lookup-AllAhead now m.key op ops v e), retained-AllLive now ops ms v)
]

-- After an expiry at `now`, every pending operation has its deadline ahead, and every queued message
-- has a pending operation.
pub expire-IsFresh : (now : ℕ) (s : Session) → IsFreshIn now (expire now s).state
unfolding expire expire_queues
expire-IsFresh now s = grind (arith, live-AllAhead, retained-AllLive)

-- Whatever message the writer takes at `now` has a pending operation with its deadline ahead.
pub next_outgoing-IsLive :
    (s : Session) (now id : ℕ) (m : Outgoing) (q : Queues)
    → (next_outgoing now s).1 ≡ message id m
    → (expire now s).state ≡ opened q
    → IsLive now m.key q.operations
unfolding next_outgoing take_outgoing
next_outgoing-IsLive s now id m q e o = ground (arith, expire-IsFresh now s)

-- A session that has ended stays ended for the same reason, whatever its threads still do.
pub Step-ended :
    {s t : Session} (e : Error) → Steps.Step s t → s.state ≡ ended e → t.state ≡ ended e
unfolding submit_request submit_reply close set_inbound_limits set_autoreply_timeout forget_request
    receive route next_outgoing take_outgoing record_write expire
Step-ended {s} e (Steps.requests m d now) h = ground arith
Step-ended {s} e (Steps.replies id a d now o) h = ground arith
Step-ended {s} e (Steps.expires now) h = ground arith
Step-ended {s} e (Steps.closes x now) h = ground arith
Step-ended {s} e (Steps.limits r b now) h = ground arith
Step-ended {s} e (Steps.retimes t) h = ground arith
Step-ended {s} e (Steps.routes now bytes x) h = ground arith
Step-ended {s} e Steps.receives h = ground arith
Step-ended {s} e (Steps.takes now) h = ground arith
Step-ended {s} e (Steps.writes key x now) h = ground arith
Step-ended {s} e (Steps.forgets id) h = ground arith
Step-ended {s} e (Steps.notifies i c l o x) h = ground arith
Step-ended {s} e (Steps.drops i o) h = ground arith
Step-ended {s} e (Steps.waits i r l x) h = ground arith
Step-ended {s} e (Steps.releases n x) h = ground arith
