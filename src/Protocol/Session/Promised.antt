-- ===== src/Protocol/Session/Promised.antt =====
-- What a session promises to the holder of a promise.
use wire_rs.Base.{ℕ, ◌≡◌, refl, true, false, Option, none, some, arith, ◌∙◌}
use wire_rs.Protocol.Ids.{Side}
use wire_rs.Protocol.Errors.{Error}
use wire_rs.Protocol.Promises.{Promise, Outcome, detach, release}
use wire_rs.Protocol.Promises.Settling.{
  promise_at, promise_at-notify, promise_at-drop_promise, wait_result-drop_promise,
}
use wire_rs.Protocol.Session.{Session, request, reply}
use wire_rs.Protocol.Session.Ending.{close, set_autoreply_timeout}
use wire_rs.Protocol.Session.Queueing.{submit_request, submit_reply, discharge}
use wire_rs.Protocol.Session.Incoming.{receive}
use wire_rs.Protocol.Session.Writer.{forget_request}
use wire_rs.Protocol.Session.Steps
use wire_rs.Protocol.Session.Invariant.Operations.{owners, operations_of}
use wire_rs.Protocol.Session.Invariant.Settling.{close-IsSettling}
use wire_rs.Protocol.Session.Invariant.Settled.{Reach-IsSettling}
use wire_rs.Protocol.Session.Unsettled.{
  close_other, expire_other, submit_other, record_write_other, set_inbound_limits_other,
  route_other, next_outgoing_other,
}

-- Closing a session settles every promise that the application still has, and leaves its result to be
-- read.
pub close-settles :
    (side : Side) (s : Session) (e : Error) (now i : ℕ) (p : Promise)
    → Steps.Reach side s
    → promise_at i (close e now s).ledger ≡ some p
    → p.alive ≡ true
    → (p.done ≡ true) × (r : Outcome) × (p.result ≡ some r)
unfolding close
close-settles side s e now i p r h a =
    ground (arith, close-IsSettling i e now s (Reach-IsSettling side s i r))

-- No operation is pending for a settled promise.
pub idle :
    {side : Side} {s : Session} (i : ℕ) (p : Promise)
    → Steps.Reach side s
    → promise_at i s.ledger ≡ some p
    → p.done ≡ true
    → owners i (operations_of s.state) ≡ 0
idle {side} {s} i p r e h = ground (arith, Reach-IsSettling side s i r)

-- What a step leaves of a settled promise: the same result, or nothing once its holder took or
-- dropped it.
abbrev Remains : Promise → Option Promise → Type 0
Remains p none = ⊥
Remains p (some q) = (q.alive ≡ true → (q.result ≡ p.result) × (q.done ≡ true))

Remains-of_eq : (p : Promise) (o : Option Promise) → p.done ≡ true → o ≡ some p → Remains p o
Remains-of_eq p o d e = rw e (λ a. (refl, d))

Step-Remains :
    (side : Side) {s t : Session} (i : ℕ) (p : Promise)
    → Steps.Reach side s
    → Steps.Step s t
    → promise_at i s.ledger ≡ some p
    → p.done ≡ true
    → Remains p (promise_at i t.ledger)
unfolding submit_request submit_reply discharge set_autoreply_timeout forget_request receive detach
    release
Step-Remains side {s} i p r (Steps.requests m d now) e h =
    Remains-of_eq p _ h (submit_other i (request m) true none d now s p e)
Step-Remains side {s} i p r (Steps.replies id x d now c) e h =
    Remains-of_eq p _ h (submit_other i (reply id x) false (some id) d now (discharge id s) p e)
Step-Remains side {s} i p r (Steps.expires now) e h =
    Remains-of_eq p _ h (expire_other i now s (idle i p r e h) ∙ e)
Step-Remains side {s} i p r (Steps.closes x now) e h =
    Remains-of_eq p _ h (close_other i x now s (idle i p r e h) ∙ e)
Step-Remains side {s} i p r (Steps.limits a b now) e h =
    Remains-of_eq p _ h (set_inbound_limits_other i a b now s (idle i p r e h) ∙ e)
Step-Remains side {s} i p r (Steps.retimes t) e h = ground arith
Step-Remains side {s} i p r (Steps.routes now bytes x) e h =
    Remains-of_eq p _ h
      (route_other i now bytes x s (Reach-IsSettling side s i r) (idle i p r e h) ∙ e)
Step-Remains side {s} i p r Steps.receives e h = ground arith
Step-Remains side {s} i p r (Steps.takes now) e h =
    Remains-of_eq p _ h (next_outgoing_other i now s (idle i p r e h) ∙ e)
Step-Remains side {s} i p r (Steps.writes key x now) e h =
    Remains-of_eq p _ h
      (record_write_other i key x now s (Reach-IsSettling side s i r) (idle i p r e h) ∙ e)
Step-Remains side {s} i p r (Steps.forgets id) e h = ground arith
Step-Remains side {s} i p r (Steps.notifies j c l o x) e h =
    ground (arith, promise_at-notify i j c s.ledger l x)
Step-Remains side {s} i p r (Steps.drops j o) e h =
    ground (arith, promise_at-drop_promise i j s.ledger)
Step-Remains side {s} i p r (Steps.waits j x l y) e h =
    ground (arith, wait_result-drop_promise j x s.ledger l y, promise_at-drop_promise i j s.ledger)
Step-Remains side {s} i p r (Steps.releases n x) e h = Remains-of_eq p _ h e

-- Once a promise is settled, no step of any thread changes its result as long as its holder has it.
pub Step-keeps_result :
    (side : Side) {s t : Session} (i : ℕ) (p p' : Promise)
    → Steps.Reach side s
    → Steps.Step s t
    → promise_at i s.ledger ≡ some p
    → p.done ≡ true
    → promise_at i t.ledger ≡ some p'
    → p'.alive ≡ true
    → (p'.result ≡ p.result) × (p'.done ≡ true)
Step-keeps_result side i p p' r st e h e' a = grind (arith, Step-Remains side i p r st e h)
