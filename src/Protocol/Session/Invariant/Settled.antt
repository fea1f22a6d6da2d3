-- ===== src/Protocol/Session/Invariant/Settled.antt =====
-- The pending operations behind each promise: the peer's answers, the writer and the promise's holder.
use wire_rs.Base.{
  ℕ, ◌≡◌, true, Option, some, List, arith, Keyed, Keyed-remove, lookup, remove, Option-cases, inl,
  inr,
}
use wire_rs.Protocol.Ids.{Side}
use wire_rs.Protocol.Errors.{Error, request_limit_exceeded, byte_limit_exceeded}
use wire_rs.Protocol.Promises.{Ledger, Outcome, Header, send, detach, release}
use wire_rs.Protocol.Promises.Settling.{
  promise_at, promise_at-notify, promise_at-drop_promise, wait_result-drop_promise,
}
use wire_rs.Protocol.Session.{Session, Queues, opened, ended, Operation, new}
use wire_rs.Protocol.Session.Ending.{expire, set_inbound_limits, set_autoreply_timeout}
use wire_rs.Protocol.Session.Incoming.{complete_response, take_response, route, receive}
use wire_rs.Protocol.Session.Writer.{take_outgoing, next_outgoing, record_write, forget_request}
use wire_rs.Protocol.Session.Steps
use wire_rs.Protocol.Session.Invariant.Kinds.{
  Asks, IsAsking, Reach-IsAsking, routes_of_lookup, requests_of_lookup,
}
use wire_rs.Protocol.Session.Invariant.Operations.{owners, owners-remove, owners-label, Keyed-label}
use wire_rs.Protocol.Session.Invariant.Settling.{
  Settles, Settles-of_eq, IsSettling, send-Settles, expire-IsSettling, close-IsSettling,
  submit_request-IsSettling, submit_reply-IsSettling,
}

settle-Settles :
    (i key n : ℕ) (ops : List (ℕ × Operation)) (op : Operation) (r : Outcome) (l : Ledger)
    → Keyed n ops
    → lookup key ops ≡ some op
    → Settles (promise_at i l) (owners i ops)
    → Settles (promise_at i (send op.sender r l).0) (owners i (remove key ops))
settle-Settles i key n ops op r l k h v =
    send-Settles i _ op r l (Settles-of_eq _ _ _ (owners-remove i key n ops op k h) v)

record_write-IsSettling :
    (i key : ℕ) (error : Option Error) (now : ℕ) (s : Session)
    → IsSettling i s
    → IsSettling i (record_write key error now s)
unfolding record_write
record_write-IsSettling i key error now s v =
    (elim s.state
        as (λ st.
          IsSettling i (record s { state = st })
          → IsSettling i (record_write key error now (record s { state = st }))) [
            | ended e ↦ λ v. v
            | opened q ↦ λ v. grind (
              arith,
              λ (op : Operation) (r : Outcome).
                  settle-Settles i key s.next_key q.operations op r s.ledger v.keyed,
              Keyed-remove s.next_key key q.operations v.keyed,
            )
          ])
      v

complete_response-Settles :
    (i key n now : ℕ) (bytes : List ℕ) (h : Header) (limit : ℕ) (ops : List (ℕ × Operation))
    (op : Operation) (l : Ledger)
    → Keyed n ops
    → lookup key ops ≡ some op
    → Settles (promise_at i l) (owners i ops)
    → op.sender.response ≡ true
    → Settles
        (promise_at i (complete_response op now bytes h limit l).0)
        (owners i (remove key ops))
unfolding complete_response
complete_response-Settles i key n now bytes h limit ops op l k e v w = grind (
  arith,
  λ (r : Outcome). settle-Settles i key n ops op r l k e v,
  λ (r : Outcome) (total : ℕ).
      settle-Settles i key n ops op r (record l { retained = total }) k e v,
)

take_response-IsSettling :
    (i now : ℕ) (bytes : List ℕ) (h : Header) (s : Session) (q : Queues)
    → ((k : ℕ) → Asks k s.next_key q)
    → IsSettling i (record s { state = opened q })
    → IsSettling i (take_response now bytes h (record s { state = opened q }) q).0
unfolding take_response
take_response-IsSettling i now bytes h s q a v = elim (Option-cases (lookup h.id q.outstanding)) [
  | inl e ↦ rw (e, take_response) v
  | inr (key, e) ↦ elim (Option-cases (lookup key q.operations)) [
    | inl e' ↦ rw (e, e', take_response) (record { keyed = v.keyed; settles = v.settles })
    | inr (op, e') ↦
        rw (e, e', take_response)
          (record {
            keyed = Keyed-remove s.next_key key q.operations v.keyed;
            settles =
                complete_response-Settles i key s.next_key now bytes h q.max_bytes q.operations op
                  s.ledger v.keyed e' v.settles
                  (requests_of_lookup key q.operations op
                    ((a key).asking (omega (arith, routes_of_lookup key h.id q.outstanding e))) e');
          })
  ]
]

route-IsSettling :
    (i now : ℕ) (bytes : List ℕ) (h : Header) (s : Session)
    → ((k : ℕ) → IsAsking k s)
    → IsSettling i s
    → IsSettling i (route now bytes h s).0
unfolding route
route-IsSettling i now bytes h s a v =
    (elim s.state
        as (λ st.
          ((k : ℕ) → IsAsking k (record s { state = st }))
          → IsSettling i (record s { state = st })
          → IsSettling i (route now bytes h (record s { state = st })).0) [
            | ended e ↦ λ a v. ground arith
            | opened q ↦ λ a v. ground (arith, take_response-IsSettling i now bytes h s q a v)
          ])
      a v

receive-IsSettling : (i : ℕ) (s : Session) → IsSettling i s → IsSettling i (receive s).0
unfolding receive detach release
receive-IsSettling i s v = ground arith

take_outgoing-IsSettling : (i : ℕ) (s : Session) → IsSettling i s → IsSettling i (take_outgoing s).0
unfolding take_outgoing
take_outgoing-IsSettling i s v = grind (arith, owners-label, Keyed-label)

next_outgoing-IsSettling :
    (i now : ℕ) (s : Session) → IsSettling i s → IsSettling i (next_outgoing now s).0
unfolding next_outgoing
next_outgoing-IsSettling i now s v =
    grind (arith, expire-IsSettling i now s v, take_outgoing-IsSettling i (expire now s))

set_inbound_limits-IsSettling :
    (i requests bytes now : ℕ) (s : Session)
    → IsSettling i s
    → IsSettling i (set_inbound_limits requests bytes now s)
unfolding set_inbound_limits
set_inbound_limits-IsSettling i requests bytes now s v =
    (elim s.state
        as (λ st.
          IsSettling i (record s { state = st })
          → IsSettling i (set_inbound_limits requests bytes now (record s { state = st }))) [
            | ended e ↦ λ v. v
            | opened q ↦ λ v.
                (let limited : Session = record s {
                  state = opened (record q { max_requests = requests; max_bytes = bytes });
                } in
                  let w : IsSettling i limited = record { keyed = v.keyed; settles = v.settles } in
                  ground (
                    arith,
                    close-IsSettling i (request_limit_exceeded requests) now limited w,
                    close-IsSettling i (byte_limit_exceeded bytes) now limited w,
                  ))
          ])
      v

-- Every step keeps the operations and promise `i` in order.
Step-IsSettling :
    (i : ℕ) {s t : Session}
    → Steps.Step s t
    → IsSettling i s
    → ((k : ℕ) → IsAsking k s)
    → IsSettling i t
unfolding set_autoreply_timeout forget_request release
Step-IsSettling i {s} (Steps.requests m d now) v a = submit_request-IsSettling i m d now s v
Step-IsSettling i {s} (Steps.replies id x d now h) v a = submit_reply-IsSettling i id x d now s v
Step-IsSettling i {s} (Steps.expires now) v a = expire-IsSettling i now s v
Step-IsSettling i {s} (Steps.closes e now) v a = close-IsSettling i e now s v
Step-IsSettling i {s} (Steps.limits r b now) v a = set_inbound_limits-IsSettling i r b now s v
Step-IsSettling i {s} (Steps.retimes t) v a = ground arith
Step-IsSettling i {s} (Steps.routes now bytes h) v a = route-IsSettling i now bytes h s a v
Step-IsSettling i {s} Steps.receives v a = receive-IsSettling i s v
Step-IsSettling i {s} (Steps.takes now) v a = next_outgoing-IsSettling i now s v
Step-IsSettling i {s} (Steps.writes key e now) v a = record_write-IsSettling i key e now s v
Step-IsSettling i {s} (Steps.forgets id) v a = ground arith
Step-IsSettling i {s} (Steps.notifies j c l o h) v a =
    ground (arith, promise_at-notify i j c s.ledger l h)
Step-IsSettling i {s} (Steps.drops j o) v a = ground (arith, promise_at-drop_promise i j s.ledger)
Step-IsSettling i {s} (Steps.waits j r l h) v a =
    ground (arith, wait_result-drop_promise j r s.ledger l h, promise_at-drop_promise i j s.ledger)
Step-IsSettling i {s} (Steps.releases n h) v a = ground arith

-- Whatever the threads do, for every promise: at most one pending operation is to settle it, exactly
-- one while it is unsettled and the application still has it, and none once it is settled; its result
-- is there to be read exactly when it is settled, as long as the application has it; and no callback
-- stays registered on a settled or dropped promise.
pub Reach-IsSettling : (side : Side) (s : Session) (i : ℕ) → Steps.Reach side s → IsSettling i s
unfolding new
Reach-IsSettling side s i Steps.here = ground arith
Reach-IsSettling side t i (Steps.next r st) =
    Step-IsSettling i st (Reach-IsSettling side _ i r) (λ k. Reach-IsAsking side _ k r)
