-- ===== src/Protocol/Session/Invariant/Suited.antt =====
-- The kinds of the results that a session publishes, through every operation of its threads
-- (src/protocol/session.rs, src/protocol/operation.rs).
use wire_rs.Base.{
  ℕ, ◌≡◌, Bool, true, false, Option, none, some, List, [], ◌∷◌, arith, lookup, remove,
  get_elem?-append, get_elem?_above,
}
use wire_rs.Protocol.Ids.{Side}
use wire_rs.Protocol.Errors.{Error, timeout, request_limit_exceeded, byte_limit_exceeded}
use wire_rs.Protocol.Promises.{Ledger, Outcome, Header, pair, detach, release}
use wire_rs.Protocol.Promises.Settling.{
  promise_at, promise_at-notify, promise_at-drop_promise, wait_result-drop_promise,
}
use wire_rs.Protocol.Session.{Session, Queues, opened, ended, Operation, Body, request, reply, new}
use wire_rs.Protocol.Session.Ending.{
  fail, expire, expire_queues, expired, live, close, set_inbound_limits, set_autoreply_timeout,
}
use wire_rs.Protocol.Session.Queueing.{enqueue, discharge, submit, submit_request, submit_reply}
use wire_rs.Protocol.Session.Incoming.{complete_response, take_response, route, receive}
use wire_rs.Protocol.Session.Writer.{take_outgoing, next_outgoing, record_write, forget_request}
use wire_rs.Protocol.Session.Steps
use wire_rs.Protocol.Session.Invariant.Operations.{owners}
use wire_rs.Protocol.Session.Invariant.Settling.{IsSettling, promise_at-detach_all}
use wire_rs.Protocol.Session.Invariant.Settled.{Reach-IsSettling}
use wire_rs.Protocol.Session.Invariant.Results.{
  Suits, IsSuited, mismatches-owners, mismatches-live, mismatches-remove, mismatches-label,
  Suits-mono, failure-Suits, fail_all-Suits, settle-Suits,
}

expire-IsSuited : (i now : ℕ) (s : Session) → IsSuited i s → IsSuited i (expire now s)
unfolding expire expire_queues
expire-IsSuited i now s v =
    (elim s.state
        as (λ st.
          IsSuited i (record s { state = st })
          → IsSuited i (expire now (record s { state = st }))) [
            | ended e ↦ λ v. v
            | opened q ↦ λ v. fail_all-Suits i (expired now q.operations) timeout now s.ledger _ (
                Suits-mono i (promise_at i s.ledger) q.operations (live now q.operations)
                  (λ wants. mismatches-live i wants now q.operations) v)
          ])
      v

close-IsSuited :
    (i : ℕ) (e : Error) (now : ℕ) (s : Session) → IsSuited i s → IsSuited i (close e now s)
unfolding close
close-IsSuited i e now s v =
    (elim s.state
        as (λ st.
          IsSuited i (record s { state = st })
          → IsSuited i (close e now (record s { state = st }))) [
            | ended e' ↦ λ v. v
            | opened q ↦ λ v. rw promise_at-detach_all (
                fail_all-Suits i q.operations e now s.ledger []
                  (Suits-mono i (promise_at i s.ledger) q.operations [] (λ wants. omega arith) v))
          ])
      v

-- A new promise is suited to the operation that is made with it.
pair-Suits :
    (i k deadline : ℕ) (wants : Bool) (log_id : Option ℕ) (l : Ledger) (ops : List (ℕ × Operation))
    → (promise_at i l ≡ none → owners i ops ≡ 0)
    → Suits i (promise_at i l) ops
    → Suits i
        (promise_at i (pair wants l).1)
        ((k, record { deadline = deadline; sender = (pair wants l).0; log_id = log_id }) ∷ ops)
unfolding pair
pair-Suits i k deadline wants log_id l ops n v = grind (
  arith,
  get_elem?-append l.promises i,
  get_elem?_above l.promises i,
  mismatches-owners i wants ops,
)

submit-IsSuited :
    (i : ℕ) (body : Body) (wants : Bool) (log_id : Option ℕ) (deadline now : ℕ) (s : Session)
    → IsSettling i s
    → IsSuited i s
    → IsSuited i (submit body wants log_id deadline now s).0
unfolding submit enqueue fail
submit-IsSuited i body wants log_id deadline now s z v =
    (elim s.state
        as (λ st.
          IsSettling i (record s { state = st })
          → IsSuited i (record s { state = st })
          → IsSuited i (submit body wants log_id deadline now (record s { state = st })).0) [
            | ended e ↦ λ z v. v
            | opened q ↦ λ z v.
                let op : Operation = record {
                  deadline = deadline;
                  sender = (pair wants s.ledger).0;
                  log_id = log_id;
                } in
                let w =
                  pair-Suits i s.next_key deadline wants log_id s.ledger q.operations
                    (λ e. ground (arith, z.settles)) v in
                let u =
                  Suits-mono i (promise_at i (pair wants s.ledger).1)
                    ((s.next_key, op) ∷ q.operations) q.operations (λ b. omega arith) w in
                ground (arith, w, failure-Suits i op timeout (pair wants s.ledger).1 q.operations u)
          ])
      z v

take_outgoing-IsSuited : (i : ℕ) (s : Session) → IsSuited i s → IsSuited i (take_outgoing s).0
unfolding take_outgoing
take_outgoing-IsSuited i s v = grind (arith, mismatches-label)

next_outgoing-IsSuited :
    (i now : ℕ) (s : Session) → IsSuited i s → IsSuited i (next_outgoing now s).0
unfolding next_outgoing
next_outgoing-IsSuited i now s v =
    grind (arith, expire-IsSuited i now s v, take_outgoing-IsSuited i (expire now s))

record_write-IsSuited :
    (i key : ℕ) (error : Option Error) (now : ℕ) (s : Session)
    → IsSuited i s
    → IsSuited i (record_write key error now s)
unfolding record_write fail
record_write-IsSuited i key error now s v =
    (elim s.state
        as (λ st.
          IsSuited i (record s { state = st })
          → IsSuited i (record_write key error now (record s { state = st }))) [
            | ended e ↦ λ v. v
            | opened q ↦ λ v. grind (
              arith,
              λ (op : Operation) (r : Outcome). settle-Suits i key op r s.ledger q.operations,
            )
          ])
      v

complete_response-Suits :
    (i key now : ℕ) (bytes : List ℕ) (h : Header) (limit : ℕ) (op : Operation) (l : Ledger)
    (ops : List (ℕ × Operation))
    → lookup key ops ≡ some op
    → Suits i (promise_at i l) ops
    → Suits i (promise_at i (complete_response op now bytes h limit l).0) (remove key ops)
unfolding complete_response fail
complete_response-Suits i key now bytes h limit op l ops e v = grind (
  arith,
  λ (r : Outcome). settle-Suits i key op r l ops,
  λ (r : Outcome) (total : ℕ). settle-Suits i key op r (record l { retained = total }) ops,
  λ (wants : Bool). mismatches-remove i wants key ops,
)

take_response-IsSuited :
    (i now : ℕ) (bytes : List ℕ) (h : Header) (s : Session) (q : Queues)
    → IsSuited i (record s { state = opened q })
    → IsSuited i (take_response now bytes h (record s { state = opened q }) q).0
unfolding take_response
take_response-IsSuited i now bytes h s q v = grind (
  arith,
  λ (key : ℕ) (op : Operation).
      complete_response-Suits i key now bytes h q.max_bytes op s.ledger q.operations,
)

route-IsSuited :
    (i now : ℕ) (bytes : List ℕ) (h : Header) (s : Session)
    → IsSuited i s
    → IsSuited i (route now bytes h s).0
unfolding route
route-IsSuited i now bytes h s v =
    (elim s.state
        as (λ st.
          IsSuited i (record s { state = st })
          → IsSuited i (route now bytes h (record s { state = st })).0) [
            | ended e ↦ λ v. ground arith
            | opened q ↦ λ v. ground (arith, take_response-IsSuited i now bytes h s q v)
          ])
      v

set_inbound_limits-IsSuited :
    (i requests bytes now : ℕ) (s : Session)
    → IsSuited i s
    → IsSuited i (set_inbound_limits requests bytes now s)
unfolding set_inbound_limits
set_inbound_limits-IsSuited i requests bytes now s v =
    (elim s.state
        as (λ st.
          IsSuited i (record s { state = st })
          → IsSuited i (set_inbound_limits requests bytes now (record s { state = st }))) [
            | ended e ↦ λ v. v
            | opened q ↦ λ v.
                (let limited : Session = record s {
                  state = opened (record q { max_requests = requests; max_bytes = bytes });
                } in
                  ground (
                    arith,
                    close-IsSuited i (request_limit_exceeded requests) now limited v,
                    close-IsSuited i (byte_limit_exceeded bytes) now limited v,
                  ))
          ])
      v

Step-IsSuited :
    (i : ℕ) {s t : Session} → Steps.Step s t → IsSettling i s → IsSuited i s → IsSuited i t
unfolding submit_request submit_reply discharge set_autoreply_timeout forget_request receive detach
    release
Step-IsSuited i {s} (Steps.requests m d now) z v =
    submit-IsSuited i (request m) true none d now s z v
Step-IsSuited i {s} (Steps.replies id x d now h) z v =
    submit-IsSuited i (reply id x) false (some id) d now (discharge id s)
      (record { keyed = z.keyed; settles = z.settles }) v
Step-IsSuited i {s} (Steps.expires now) z v = expire-IsSuited i now s v
Step-IsSuited i {s} (Steps.closes e now) z v = close-IsSuited i e now s v
Step-IsSuited i {s} (Steps.limits r b now) z v = set_inbound_limits-IsSuited i r b now s v
Step-IsSuited i {s} (Steps.retimes t) z v = ground arith
Step-IsSuited i {s} (Steps.routes now bytes h) z v = route-IsSuited i now bytes h s v
Step-IsSuited i {s} Steps.receives z v = ground arith
Step-IsSuited i {s} (Steps.takes now) z v = next_outgoing-IsSuited i now s v
Step-IsSuited i {s} (Steps.writes key e now) z v = record_write-IsSuited i key e now s v
Step-IsSuited i {s} (Steps.forgets id) z v = ground arith
Step-IsSuited i {s} (Steps.notifies j c l o h) z v =
    ground (arith, promise_at-notify i j c s.ledger l h)
Step-IsSuited i {s} (Steps.drops j o) z v = ground (arith, promise_at-drop_promise i j s.ledger)
Step-IsSuited i {s} (Steps.waits j r l h) z v =
    ground (arith, wait_result-drop_promise j r s.ledger l h, promise_at-drop_promise i j s.ledger)
Step-IsSuited i {s} (Steps.releases n h) z v = ground arith

pub Reach-IsSuited : (side : Side) (s : Session) (i : ℕ) → Steps.Reach side s → IsSuited i s
unfolding new
Reach-IsSuited side s i Steps.here = ground arith
Reach-IsSuited side t i (Steps.next {s} r st) =
    Step-IsSuited i st (Reach-IsSettling side s i r) (Reach-IsSuited side s i r)
