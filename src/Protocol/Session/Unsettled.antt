-- ===== src/Protocol/Session/Unsettled.antt =====
-- The promises that no pending operation is to settle: what the critical sections leave of them.
use wire_rs.Base.{
  ℕ, ◌≡◌, refl, Bool, Option, some, List, [], ◌∷◌, arith, lookup, Keyed, Option-cases, inl, inr,
  get_elem?-append, get_elem?_above, ◌∙◌,
}
use wire_rs.Protocol.Errors.{Error, timeout, request_limit_exceeded, byte_limit_exceeded}
use wire_rs.Protocol.Promises.{Promise, Ledger, Outcome, Header, pair, send}
use wire_rs.Protocol.Promises.Settling.{promise_at, promise_at-send}
use wire_rs.Protocol.Session.{Session, Queues, opened, ended, Operation, Body}
use wire_rs.Protocol.Session.Ending.{fail, fail_all, expire, expired, close, set_inbound_limits}
use wire_rs.Protocol.Session.Queueing.{enqueue, submit}
use wire_rs.Protocol.Session.Incoming.{complete_response, admit_request, take_response, route}
use wire_rs.Protocol.Session.Writer.{take_outgoing, next_outgoing, record_write}
use wire_rs.Protocol.Session.Invariant.Operations.{
  owns, owners, operations_of, owners-remove, owners-live,
}
use wire_rs.Protocol.Session.Invariant.Settling.{IsSettling, promise_at-detach_all}

-- A result that is sent for another promise leaves promise `i` as it is.
pub send_other :
    (i : ℕ) (op : Operation) (r : Outcome) (l : Ledger)
    → owns i op ≡ 0
    → promise_at i (send op.sender r l).0 ≡ promise_at i l
send_other i op r l h = ground (arith, promise_at-send i op.sender r l)

pub fail_all_other :
    (i : ℕ) (ops : List (ℕ × Operation)) (e : Error) (now : ℕ) (l : Ledger)
    → owners i ops ≡ 0
    → promise_at i (fail_all ops e now l) ≡ promise_at i l
unfolding fail_all fail
fail_all_other i [] e now l h = refl
fail_all_other i ((k, op) ∷ ops) e now l h =
    fail_all_other i ops e now _ (omega arith) ∙ send_other i op _ l (omega arith)

pub close_other :
    (i : ℕ) (e : Error) (now : ℕ) (s : Session)
    → owners i (operations_of s.state) ≡ 0
    → promise_at i (close e now s).ledger ≡ promise_at i s.ledger
unfolding close
close_other i e now s h =
    (elim s.state
        as (λ st.
          owners i (operations_of st) ≡ 0
          → promise_at i (close e now (record s { state = st })).ledger ≡ promise_at i s.ledger) [
            | ended e' ↦ λ h. refl
            | opened q ↦
                λ h. rw promise_at-detach_all (fail_all_other i q.operations e now s.ledger h)
          ])
      h

pub expire_other :
    (i now : ℕ) (s : Session)
    → owners i (operations_of s.state) ≡ 0
    → promise_at i (expire now s).ledger ≡ promise_at i s.ledger
unfolding expire
expire_other i now s h =
    (elim s.state
        as (λ st.
          owners i (operations_of st) ≡ 0
          → promise_at i (expire now (record s { state = st })).ledger ≡ promise_at i s.ledger) [
            | ended e' ↦ λ h. refl
            | opened q ↦ λ h.
                fail_all_other i (expired now q.operations) timeout now s.ledger
                  (omega (arith, owners-live i now q.operations))
          ])
      h

pub submit_other :
    (i : ℕ) (body : Body) (wants : Bool) (log_id : Option ℕ) (deadline now : ℕ) (s : Session)
    (p : Promise)
    → promise_at i s.ledger ≡ some p
    → promise_at i (submit body wants log_id deadline now s).0.ledger ≡ some p
unfolding submit enqueue pair fail
submit_other i body wants log_id deadline now s p h = grind (
  arith,
  promise_at-send i,
  get_elem?-append s.ledger.promises i,
  get_elem?_above s.ledger.promises i,
)

pub record_write_other :
    (i key : ℕ) (error : Option Error) (now : ℕ) (s : Session)
    → IsSettling i s
    → owners i (operations_of s.state) ≡ 0
    → promise_at i (record_write key error now s).ledger ≡ promise_at i s.ledger
unfolding record_write fail
record_write_other i key error now s v h =
    (elim s.state
        as (λ st.
          Keyed s.next_key (operations_of st)
          → owners i (operations_of st) ≡ 0
          → promise_at i (record_write key error now (record s { state = st })).ledger
            ≡ promise_at i s.ledger) [
              | ended e ↦ λ v h. refl
              | opened q ↦ λ v h. grind (
                arith,
                λ (op : Operation). owners-remove i key s.next_key q.operations op v,
                send_other i,
              )
            ])
      v.keyed h

pub complete_response_other :
    (i now : ℕ) (bytes : List ℕ) (h : Header) (limit : ℕ) (op : Operation) (l : Ledger)
    → owns i op ≡ 0
    → promise_at i (complete_response op now bytes h limit l).0 ≡ promise_at i l
unfolding complete_response
complete_response_other i now bytes h limit op l o = grind (
  arith,
  λ (r : Outcome). send_other i op r l o,
  λ (r : Outcome) (total : ℕ). send_other i op r (record l { retained = total }) o,
)

pub take_response_other :
    (i now : ℕ) (bytes : List ℕ) (h : Header) (s : Session) (q : Queues)
    → Keyed s.next_key q.operations
    → owners i q.operations ≡ 0
    → promise_at i (take_response now bytes h s q).0.ledger ≡ promise_at i s.ledger
unfolding take_response
take_response_other i now bytes h s q v o = elim (Option-cases (lookup h.id q.outstanding)) [
  | inl e ↦ rw (e, take_response) refl
  | inr (key, e) ↦ elim (Option-cases (lookup key q.operations)) [
    | inl e' ↦ rw (e, e', take_response) refl
    | inr (op, e') ↦
        rw (e, e', take_response)
          (complete_response_other i now bytes h q.max_bytes op s.ledger
            (omega (arith, owners-remove i key s.next_key q.operations op v e')))
  ]
]

pub set_inbound_limits_other :
    (i requests bytes now : ℕ) (s : Session)
    → owners i (operations_of s.state) ≡ 0
    → promise_at i (set_inbound_limits requests bytes now s).ledger ≡ promise_at i s.ledger
unfolding set_inbound_limits
set_inbound_limits_other i requests bytes now s h =
    (elim s.state
        as (λ st.
          owners i (operations_of st) ≡ 0
          → promise_at i (set_inbound_limits requests bytes now (record s { state = st })).ledger
            ≡ promise_at i s.ledger) [
              | ended e ↦ λ h. refl
              | opened q ↦ λ h.
                  (let limited : Session = record s {
                    state = opened (record q { max_requests = requests; max_bytes = bytes });
                  } in
                    ground (
                      arith,
                      close_other i (request_limit_exceeded requests) now limited h,
                      close_other i (byte_limit_exceeded bytes) now limited h,
                    ))
            ])
      h

pub route_other :
    (i now : ℕ) (bytes : List ℕ) (h : Header) (s : Session)
    → IsSettling i s
    → owners i (operations_of s.state) ≡ 0
    → promise_at i (route now bytes h s).0.ledger ≡ promise_at i s.ledger
unfolding route admit_request
route_other i now bytes h s v o =
    (elim s.state
        as (λ st.
          Keyed s.next_key (operations_of st)
          → owners i (operations_of st) ≡ 0
          → promise_at i (route now bytes h (record s { state = st })).0.ledger
            ≡ promise_at i s.ledger) [
              | ended e ↦ λ v o. ground arith
              | opened q ↦ λ v o.
                  ground
                    (arith, take_response_other i now bytes h (record s { state = opened q }) q v o)
            ])
      v.keyed o

ledger-take_outgoing : (s : Session) → (take_outgoing s).0.ledger ≡ s.ledger
unfolding take_outgoing
ledger-take_outgoing s = ground arith

pub next_outgoing_other :
    (i now : ℕ) (s : Session)
    → owners i (operations_of s.state) ≡ 0
    → promise_at i (next_outgoing now s).0.ledger ≡ promise_at i s.ledger
unfolding next_outgoing
next_outgoing_other i now s h =
    ground (arith, expire_other i now s h, ledger-take_outgoing (expire now s))
