-- ===== src/Protocol/Session/Invariant/Settling.antt =====
-- The pending operations behind each promise: submitting, expiring and closing.
use wire_rs.Base.{
  ℕ, suc, ◌+◌, ◌≤◌, ◌≡◌, refl, subst, Bool, true, false, Option, none, some, List, [], ◌∷◌, arith,
  length, ◌==◌, if◌then◌else◌, Keyed, Keyed-mono, lookup_above, get_elem?-append, get_elem?_above,
}
use wire_rs.Protocol.Errors.{Error, timeout}
use wire_rs.Protocol.Promises.{
  Promise, Ledger, Outcome, Envelope, failure, pair, send, detach, release,
}
use wire_rs.Protocol.Promises.Settling.{promise_at, promise_at-send}
use wire_rs.Protocol.Session.{
  Session, Queues, opened, ended, Operation, Answer, Body, request, reply,
}
use wire_rs.Protocol.Session.Ending.{
  fail, fail_all, expire, expire_queues, expired, detach_all, close, is_some,
}
use wire_rs.Protocol.Session.Queueing.{enqueue, discharge, submit, submit_request, submit_reply}
use wire_rs.Protocol.Session.Invariant.Operations.{
  owns, owners, operations_of, owners-live, Keyed-live,
}

-- A promise that `n` pending operations are to settle.
pub record SettlesOnce (p : Promise) (n : ℕ) : Type 0 where
  pub unique : n ≤ 1
  pub once : p.done ≡ true → n ≡ 0
  pub awaited : p.alive ≡ true → p.done ≡ false → n ≡ 1
  pub ready : p.alive ≡ true → p.done ≡ true → is_some p.result ≡ true
  pub empty : p.done ≡ false → p.result ≡ none
  pub unhooked : p.done ≡ true → p.hook ≡ none
  pub dead : p.alive ≡ false → (p.result ≡ none) × (p.hook ≡ none)

abbrev pub Settles : Option Promise → ℕ → Type 0
Settles none n = n ≡ 0
Settles (some p) n = SettlesOnce p n

pub Settles-of_eq : (o : Option Promise) (n m : ℕ) → n ≡ m → Settles o n → Settles o m
Settles-of_eq o n m e v = subst (Settles o) e v

pub send-Settles :
    (i c : ℕ) (op : Operation) (r : Outcome) (l : Ledger)
    → Settles (promise_at i l) (c + owns i op)
    → Settles (promise_at i (send op.sender r l).0) c
send-Settles i c op r l v = ground (arith, promise_at-send i op.sender r l)

fail_all-Settles :
    (i c : ℕ) (ops : List (ℕ × Operation)) (e : Error) (now : ℕ) (l : Ledger)
    → Settles (promise_at i l) (c + owners i ops)
    → Settles (promise_at i (fail_all ops e now l)) c
unfolding fail_all fail
fail_all-Settles i c [] e now l v = Settles-of_eq _ (c + 0) c (omega arith) v
fail_all-Settles i c ((k, op) ∷ ops) e now l v =
    fail_all-Settles i c ops e now _
      (send-Settles i (c + owners i ops) op _ l (Settles-of_eq _ _ _ (omega arith) v))

pub promise_at-detach_all :
    (i : ℕ) (xs : List (ℕ × Envelope)) (l : Ledger)
    → promise_at i (detach_all xs l) ≡ promise_at i l
unfolding detach_all detach release
promise_at-detach_all i [] l = refl
promise_at-detach_all i ((id, e) ∷ xs) l = promise_at-detach_all i xs (detach e.charge l)

-- A session whose operations have distinct keys and settle promise `i` once.
pub record IsSettling (i : ℕ) (s : Session) : Type 0 where
  pub keyed : Keyed s.next_key (operations_of s.state)
  pub settles : Settles (promise_at i s.ledger) (owners i (operations_of s.state))

pub expire-IsSettling : (i now : ℕ) (s : Session) → IsSettling i s → IsSettling i (expire now s)
unfolding expire expire_queues
expire-IsSettling i now s v =
    (elim s.state
        as (λ st.
          IsSettling i (record s { state = st })
          → IsSettling i (expire now (record s { state = st }))) [
            | ended e ↦ λ v. v
            | opened q ↦ λ v. record {
              keyed = Keyed-live s.next_key now q.operations v.keyed;
              settles =
                  fail_all-Settles i _ (expired now q.operations) timeout now s.ledger
                    (Settles-of_eq _ _ _ (owners-live i now q.operations) v.settles);
            }
          ])
      v

pub close-IsSettling :
    (i : ℕ) (e : Error) (now : ℕ) (s : Session) → IsSettling i s → IsSettling i (close e now s)
unfolding close
close-IsSettling i e now s v =
    (elim s.state
        as (λ st.
          IsSettling i (record s { state = st })
          → IsSettling i (close e now (record s { state = st }))) [
            | ended e' ↦ λ v. v
            | opened q ↦ λ v. record {
              keyed = tt;
              settles = rw promise_at-detach_all (
                  fail_all-Settles i 0 q.operations e now s.ledger
                    (Settles-of_eq _ _ _ (omega arith) v.settles));
            }
          ])
      v

pub pair-Settles :
    (i n : ℕ) (wants : Bool) (l : Ledger)
    → Settles (promise_at i l) n
    → Settles (promise_at i (pair wants l).1) (n + (if length l.promises == i then 1 else 0))
unfolding pair
pair-Settles i n wants l v =
    grind (arith, get_elem?-append l.promises i, get_elem?_above l.promises i)

enqueue-IsSettling :
    (i : ℕ) (body : Body) (op : Operation) (now : ℕ) (s : Session) (q : Queues)
    → Keyed s.next_key q.operations
    → Settles (promise_at i s.ledger) (owners i q.operations + owns i op)
    → IsSettling i (enqueue body op now s q)
unfolding enqueue fail
enqueue-IsSettling i body op now s q k v = ground (
  arith,
  send-Settles i (owners i q.operations) op (failure timeout) s.ledger v,
  Keyed-mono s.next_key (suc s.next_key) q.operations (omega arith) k,
  lookup_above s.next_key s.next_key q.operations (omega arith) k,
  Settles-of_eq (promise_at i s.ledger) (owners i q.operations + owns i op)
      (owns i op + owners i q.operations) (omega arith) v,
)

submit-IsSettling :
    (i : ℕ) (body : Body) (wants : Bool) (log_id : Option ℕ) (deadline now : ℕ) (s : Session)
    → IsSettling i s
    → IsSettling i (submit body wants log_id deadline now s).0
unfolding submit
submit-IsSettling i body wants log_id deadline now s v =
    (elim s.state
        as (λ st.
          IsSettling i (record s { state = st })
          → IsSettling i (submit body wants log_id deadline now (record s { state = st })).0) [
            | ended e ↦ λ v. v
            | opened q ↦ λ v.
                enqueue-IsSettling i body _ now
                  (record s { state = opened q; ledger = (pair wants s.ledger).1 }) q v.keyed
                  (pair-Settles i (owners i q.operations) wants s.ledger v.settles)
          ])
      v

pub submit_request-IsSettling :
    (i message deadline now : ℕ) (s : Session)
    → IsSettling i s
    → IsSettling i (submit_request message deadline now s).0
unfolding submit_request
submit_request-IsSettling i message deadline now s v =
    submit-IsSettling i (request message) true none deadline now s v

pub submit_reply-IsSettling :
    (i id : ℕ) (answer : Answer) (deadline now : ℕ) (s : Session)
    → IsSettling i s
    → IsSettling i (submit_reply id answer deadline now s).0
unfolding submit_reply
submit_reply-IsSettling i id answer deadline now s v =
    submit-IsSettling i (reply id answer) false (some id) deadline now (discharge id s)
      (record { keyed = v.keyed; settles = v.settles })

-- Removing an operation and sending its result keeps every promise's count.
