-- ===== src/Protocol/Exchange/Payloads.antt =====
-- The messages that a session of src/protocol/session.rs keeps for its application, in its queue and in
-- its promises, and a test that all of them pass.
use wire_rs.Base.{
  ℕ, ◌≡◌, refl, Bool, true, false, Option, none, some, List, [], ◌∷◌, ◌++◌, arith, get_elem?-append,
  get_elem?_above,
}
use wire_rs.Protocol.Errors.{Error, timeout}
use wire_rs.Protocol.Promises.{
  Promise, Ledger, Outcome, Envelope, Header, response, written, failure, pair, send, detach,
  release,
}
use wire_rs.Protocol.Promises.Settling.{
  promise_at, promise_at-send, promise_at-notify, promise_at-drop_promise, wait_result-drop_promise,
}
use wire_rs.Protocol.Session.{
  Session, State, opened, ended, Queues, Operation, Body, request, reply,
}
use wire_rs.Protocol.Session.Ending.{
  fail, fail_all, expire, expire_queues, expired, close, set_inbound_limits, set_autoreply_timeout,
}
use wire_rs.Protocol.Session.Queueing.{submit, enqueue, submit_request, submit_reply, discharge}
use wire_rs.Protocol.Session.Incoming.{
  complete_response, take_response, admit_request, route, receive,
}
use wire_rs.Protocol.Session.Writer.{take_outgoing, next_outgoing, record_write, forget_request}
use wire_rs.Protocol.Session.Steps
use wire_rs.Protocol.Session.Invariant.Settling.{promise_at-detach_all}
use wire_rs.Protocol.Exchange.Slots.{is_route}

module _ (valid : List ℕ → Bool) where
  abbrev pub passes : Option Outcome → Bool
  passes none = true
  passes (some (response e)) = valid e.bytes
  passes (some written) = true
  passes (some (failure e)) = true

  abbrev pub AllPass : List (ℕ × Envelope) → Type 0
  AllPass [] = Unit {0}
  AllPass ((id, e) ∷ xs) = (valid e.bytes ≡ true) × AllPass xs

  abbrev pub PassesAt : Option Promise → Type 0
  PassesAt none = Unit {0}
  PassesAt (some p) = passes p.result ≡ true

  abbrev pub incoming_of : State → List (ℕ × Envelope)
  incoming_of (ended e) = []
  incoming_of (opened q) = q.incoming

  abbrev pub IsKeeping : ℕ → Session → Type 0
  IsKeeping i s = AllPass (incoming_of s.state) × PassesAt (promise_at i s.ledger)

  AllPass-append :
      (id : ℕ) (e : Envelope) (xs : List (ℕ × Envelope))
      → valid e.bytes ≡ true
      → AllPass xs
      → AllPass (xs ++ ((id, e) ∷ []))
  AllPass-append id e [] p v = (p, tt)
  AllPass-append id e ((j, x) ∷ xs) p v = (v.0, AllPass-append id e xs p v.1)

  send-PassesAt :
      (i : ℕ) (op : Operation) (r : Outcome) (l : Ledger)
      → passes (some r) ≡ true
      → PassesAt (promise_at i l)
      → PassesAt (promise_at i (send op.sender r l).0)
  send-PassesAt i op r l p v = ground (arith, promise_at-send i op.sender r l)

  fail_all-PassesAt :
      (i : ℕ) (ops : List (ℕ × Operation)) (e : Error) (now : ℕ) (l : Ledger)
      → PassesAt (promise_at i l)
      → PassesAt (promise_at i (fail_all ops e now l))
  unfolding fail_all fail
  fail_all-PassesAt i [] e now l v = v
  fail_all-PassesAt i ((k, op) ∷ ops) e now l v =
      fail_all-PassesAt i ops e now _ (send-PassesAt i op _ l refl v)

  pair-PassesAt :
      (i : ℕ) (wants : Bool) (l : Ledger)
      → PassesAt (promise_at i l)
      → PassesAt (promise_at i (pair wants l).1)
  unfolding pair
  pair-PassesAt i wants l v =
      grind (arith, get_elem?-append l.promises i, get_elem?_above l.promises i)

  expire-IsKeeping : (i now : ℕ) (s : Session) → IsKeeping i s → IsKeeping i (expire now s)
  unfolding expire expire_queues
  expire-IsKeeping i now s v =
      (elim s.state
          as (λ st.
            IsKeeping i (record s { state = st })
            → IsKeeping i (expire now (record s { state = st }))) [
              | ended e ↦ λ v. v
              | opened q ↦ λ v.
                  (v.0, fail_all-PassesAt i (expired now q.operations) timeout now s.ledger v.1)
            ])
        v

  close-IsKeeping :
      (i : ℕ) (e : Error) (now : ℕ) (s : Session) → IsKeeping i s → IsKeeping i (close e now s)
  unfolding close
  close-IsKeeping i e now s v =
      (elim s.state
          as (λ st.
            IsKeeping i (record s { state = st })
            → IsKeeping i (close e now (record s { state = st }))) [
              | ended e' ↦ λ v. v
              | opened q ↦ λ v. (
                tt,
                rw promise_at-detach_all (fail_all-PassesAt i q.operations e now s.ledger v.1),
              )
            ])
        v

  submit-IsKeeping :
      (i : ℕ) (body : Body) (wants : Bool) (log_id : Option ℕ) (deadline now : ℕ) (s : Session)
      → IsKeeping i s
      → IsKeeping i (submit body wants log_id deadline now s).0
  unfolding submit enqueue fail
  submit-IsKeeping i body wants log_id deadline now s v = ground (
    arith,
    pair-PassesAt i wants s.ledger v.1,
    send-PassesAt i
        (record { deadline = deadline; sender = (pair wants s.ledger).0; log_id = log_id })
        (failure timeout) (pair wants s.ledger).1 refl,
  )

  record_write-IsKeeping :
      (i key : ℕ) (error : Option Error) (now : ℕ) (s : Session)
      → IsKeeping i s
      → IsKeeping i (record_write key error now s)
  unfolding record_write fail
  record_write-IsKeeping i key error now s v =
      grind (arith, λ (op : Operation) (r : Outcome). send-PassesAt i op r s.ledger)

  complete_response-PassesAt :
      (i now : ℕ) (bytes : List ℕ) (h : Header) (limit : ℕ) (op : Operation) (l : Ledger)
      → valid bytes ≡ true
      → PassesAt (promise_at i l)
      → PassesAt (promise_at i (complete_response op now bytes h limit l).0)
  unfolding complete_response fail
  complete_response-PassesAt i now bytes h limit op l p v = grind (
    arith,
    λ (r : Outcome). send-PassesAt i op r l,
    λ (r : Outcome) (total : ℕ). send-PassesAt i op r (record l { retained = total }),
  )

  -- A message that passes may be routed.
  pub route-IsKeeping :
      (i now : ℕ) (bytes : List ℕ) (h : Header) (s : Session)
      → valid bytes ≡ true
      → IsKeeping i s
      → IsKeeping i (route now bytes h s).0
  unfolding route admit_request take_response
  route-IsKeeping i now bytes h s p v = grind (
    arith,
    λ (q : Queues) (e : Envelope). AllPass-append h.id e q.incoming,
    λ (q : Queues) (op : Operation).
        complete_response-PassesAt i now bytes h q.max_bytes op s.ledger,
  )

  set_inbound_limits-IsKeeping :
      (i requests bytes now : ℕ) (s : Session)
      → IsKeeping i s
      → IsKeeping i (set_inbound_limits requests bytes now s)
  unfolding set_inbound_limits
  set_inbound_limits-IsKeeping i requests bytes now s v =
      grind (arith, λ (e : Error) (t : Session). close-IsKeeping i e now t)

  next_outgoing-IsKeeping :
      (i now : ℕ) (s : Session) → IsKeeping i s → IsKeeping i (next_outgoing now s).0
  unfolding next_outgoing take_outgoing
  next_outgoing-IsKeeping i now s v = grind (arith, expire-IsKeeping i now s v)

  -- Every other step keeps what passes.
  pub Step-IsKeeping :
      (i : ℕ) {s t : Session} (st : Steps.Step s t)
      → is_route st ≡ false
      → IsKeeping i s
      → IsKeeping i t
  unfolding submit_request submit_reply discharge set_autoreply_timeout forget_request receive
      detach release
  Step-IsKeeping i {s} (Steps.requests m d now) n v =
      submit-IsKeeping i (request m) true none d now s v
  Step-IsKeeping i {s} (Steps.replies id x d now h) n v =
      submit-IsKeeping i (reply id x) false (some id) d now (discharge id s) v
  Step-IsKeeping i {s} (Steps.expires now) n v = expire-IsKeeping i now s v
  Step-IsKeeping i {s} (Steps.closes e now) n v = close-IsKeeping i e now s v
  Step-IsKeeping i {s} (Steps.limits r b now) n v = set_inbound_limits-IsKeeping i r b now s v
  Step-IsKeeping i {s} (Steps.retimes t) n v = ground arith
  Step-IsKeeping i {s} (Steps.routes now bytes h) n v = absurd (ground arith)
  Step-IsKeeping i {s} Steps.receives n v = ground arith
  Step-IsKeeping i {s} (Steps.takes now) n v = next_outgoing-IsKeeping i now s v
  Step-IsKeeping i {s} (Steps.writes key e now) n v = record_write-IsKeeping i key e now s v
  Step-IsKeeping i {s} (Steps.forgets id) n v = ground arith
  Step-IsKeeping i {s} (Steps.notifies j c l o h) n v =
      ground (arith, promise_at-notify i j c s.ledger l h)
  Step-IsKeeping i {s} (Steps.drops j o) n v = ground (arith, promise_at-drop_promise i j s.ledger)
  Step-IsKeeping i {s} (Steps.waits j r l h) n v =
      ground
        (arith, wait_result-drop_promise j r s.ledger l h, promise_at-drop_promise i j s.ledger)
  Step-IsKeeping i {s} (Steps.releases k h) n v = ground arith
