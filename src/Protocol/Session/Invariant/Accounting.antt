-- ===== src/Protocol/Session/Invariant/Accounting.antt =====
-- The byte counter under submitting, expiring, closing and the holder's calls.
use wire_rs.Base.{
  ℕ, ◌+◌, ◌≤◌, ◌≡◌, refl, true, false, Bool, Option, none, some, List, [], ◌∷◌, arith, length, leb,
  if◌then◌else◌, lookup, remove, Option-cases, inl, inr, Keyed,
}
use wire_rs.Protocol.Errors.{Error, timeout}
use wire_rs.Protocol.Promises.{
  Ledger, Outcome, Envelope, written, failure, pair, held, send, detach, release, notify,
  drop_promise,
}
use wire_rs.Protocol.Promises.Settling.{promise_at}
use wire_rs.Protocol.Session.{Session, State, Queues, opened, ended, Operation, Body}
use wire_rs.Protocol.Session.Ending.{
  fail, fail_all, expire, expire_queues, expired, live, detach_all, close,
}
use wire_rs.Protocol.Session.Queueing.{enqueue, submit}
use wire_rs.Protocol.Session.Incoming.{receive}
use wire_rs.Protocol.Session.Writer.{write_error, record_write}
use wire_rs.Protocol.Session.Invariant.Operations.{owns, owners, owners-remove, owners-live}
use wire_rs.Protocol.Session.Invariant.Settling.{IsSettling, Settles, Settles-of_eq, pair-Settles}
use wire_rs.Protocol.Session.Invariant.Bytes.{
  unread, queued, unread-append, unread-set, Counts, send-Counts, fail_all-Counts,
}

abbrev pub queued_of : State → ℕ
queued_of (ended e) = 0
queued_of (opened q) = queued q.incoming

abbrev pub Within : State → ℕ → Type 0
Within (ended e) n = Unit {0}
Within (opened q) n = n ≤ q.max_bytes

-- The counter holds the bytes of the queued requests, of the unread results and of the charges that
-- were taken out and are not dropped yet, and of nothing else.
pub record IsCounted (s : Session) : Type 0 where
  pub counts : Counts (queued_of s.state) s.ledger
  pub within : Within s.state s.ledger.retained

pub retained-send :
    (op : Operation) (r : Outcome) (l : Ledger) → (send op.sender r l).0.retained ≤ l.retained
unfolding send
retained-send op r l = ground arith

retained-fail_all :
    (ops : List (ℕ × Operation)) (e : Error) (now : ℕ) (l : Ledger)
    → (fail_all ops e now l).retained ≤ l.retained
unfolding fail_all fail
retained-fail_all [] e now l = omega arith
retained-fail_all ((k, op) ∷ ops) e now l = omega (
  arith,
  retained-fail_all ops e now (fail op e now l),
  retained-send op (failure (if leb op.deadline now then timeout else e)) l,
)

detach_all-Counts :
    (xs : List (ℕ × Envelope)) (l : Ledger) → Counts (queued xs) l → Counts 0 (detach_all xs l)
unfolding detach_all detach release
detach_all-Counts [] l h = h
detach_all-Counts ((id, e) ∷ xs) l h = detach_all-Counts xs (detach e.charge l) (omega arith)

pub expire-IsCounted :
    (now : ℕ) (s : Session) → ((i : ℕ) → IsSettling i s) → IsCounted s → IsCounted (expire now s)
unfolding expire expire_queues
expire-IsCounted now s a v =
    (elim s.state
        as (λ st.
          ((i : ℕ) → IsSettling i (record s { state = st }))
          → IsCounted (record s { state = st })
          → IsCounted (expire now (record s { state = st }))) [
            | ended e ↦ λ a v. v
            | opened q ↦ λ a v. record {
              counts =
                  fail_all-Counts (queued q.incoming) (λ i. owners i (live now q.operations))
                    (expired now q.operations) timeout now s.ledger
                    (λ i. Settles-of_eq _ _ _ (owners-live i now q.operations) (a i).settles)
                    v.counts;
              within = omega (
                arith,
                v.within,
                retained-fail_all (expired now q.operations) timeout now s.ledger,
              );
            }
          ])
      a v

pub close-IsCounted :
    (e : Error) (now : ℕ) (s : Session)
    → ((i : ℕ) → IsSettling i s)
    → Counts (queued_of s.state) s.ledger
    → IsCounted (close e now s)
unfolding close
close-IsCounted e now s a v =
    (elim s.state
        as (λ st.
          ((i : ℕ) → IsSettling i (record s { state = st }))
          → Counts (queued_of st) s.ledger
          → IsCounted (close e now (record s { state = st }))) [
            | ended e' ↦ λ a v. record { counts = v; within = tt }
            | opened q ↦ λ a v. record {
              counts = detach_all-Counts q.incoming _ (
                  fail_all-Counts (queued q.incoming) (λ i. 0) q.operations e now s.ledger
                    (λ i. Settles-of_eq _ _ _ (omega arith) (a i).settles) v);
              within = tt;
            }
          ])
      a v

pair-Counts : (q : ℕ) (wants : Bool) (l : Ledger) → Counts q l → Counts q (pair wants l).1
unfolding pair held
pair-Counts q wants l v = grind (arith, unread-append)

enqueue-IsCounted :
    (body : Body) (op : Operation) (now : ℕ) (s : Session) (q : Queues)
    → Settles
        (promise_at op.sender.promise s.ledger)
        (owners op.sender.promise q.operations + owns op.sender.promise op)
    → Counts (queued q.incoming) s.ledger
    → s.ledger.retained ≤ q.max_bytes
    → IsCounted (enqueue body op now (record s { state = opened q }) q)
unfolding enqueue fail held
enqueue-IsCounted body op now s q v c w = ground (
  arith,
  send-Counts (queued q.incoming) (owners op.sender.promise q.operations) op (failure timeout)
      s.ledger v (omega arith),
  retained-send op (failure timeout) s.ledger,
)

pub submit-IsCounted :
    (body : Body) (wants : Bool) (log_id : Option ℕ) (deadline now : ℕ) (s : Session)
    → ((i : ℕ) → IsSettling i s)
    → IsCounted s
    → IsCounted (submit body wants log_id deadline now s).0
unfolding submit
submit-IsCounted body wants log_id deadline now s a v =
    (elim s.state
        as (λ st.
          ((i : ℕ) → IsSettling i (record s { state = st }))
          → IsCounted (record s { state = st })
          → IsCounted (submit body wants log_id deadline now (record s { state = st })).0) [
            | ended e ↦ λ a v. v
            | opened q ↦ λ a v.
                (let i : ℕ = length s.ledger.promises in
                  enqueue-IsCounted body _ now
                    (record s { state = opened q; ledger = (pair wants s.ledger).1 }) q
                    (pair-Settles i (owners i q.operations) wants s.ledger (a i).settles)
                    (pair-Counts (queued q.incoming) wants s.ledger v.counts)
                    (unfold pair in v.within))
          ])
      a v

pub drop_promise-Counts : (q i : ℕ) (l : Ledger) → Counts q l → Counts q (drop_promise i l)
unfolding drop_promise held
drop_promise-Counts q i l v = elim (Option-cases (promise_at i l)) [
  | inl e ↦ rw (e, drop_promise) v
  | inr (p, e) ↦
      rw (e, drop_promise)
        (omega (
          arith,
          v,
          unread-set l.promises i p (record p { result = none; alive = false; hook = none }) e,
        ))
]

pub retained-drop_promise-le : (i : ℕ) (l : Ledger) → (drop_promise i l).retained ≤ l.retained
unfolding drop_promise
retained-drop_promise-le i l = ground arith

pub notify-Counts :
    (q i callback : ℕ) (l l' : Ledger)
    → notify i callback l ≡ some l'
    → Counts q l
    → Counts q l' × (l'.retained ≡ l.retained)
unfolding notify
notify-Counts q i callback l l' h v = elim (Option-cases (promise_at i l)) [
  | inl e ↦ ground arith
  | inr (p, e) ↦ ground (
    arith,
    unread-set l.promises i p (record p { registered = true }) e,
    unread-set l.promises i p (record p { registered = true; hook = some callback }) e,
  )
]

pub receive-IsCounted : (s : Session) → IsCounted s → IsCounted (receive s).0
unfolding receive detach release
receive-IsCounted s v = ground arith

-- Taking an operation from the map and sending its result counts that result.
pub settle-Counts :
    (q key n : ℕ) (ops : List (ℕ × Operation)) (op : Operation) (r : Outcome) (l : Ledger)
    → Keyed n ops
    → lookup key ops ≡ some op
    → ((i : ℕ) → Settles (promise_at i l) (owners i ops))
    → l.retained ≡ q + unread l.promises + l.freed + held (some r)
    → Counts q (send op.sender r l).0
settle-Counts q key n ops op r l k e v h =
    send-Counts q (owners op.sender.promise (remove key ops)) op r l
      (Settles-of_eq _ _ _ (owners-remove op.sender.promise key n ops op k e) (v op.sender.promise))
      h

pub record_write-IsCounted :
    (key : ℕ) (error : Option Error) (now : ℕ) (s : Session)
    → ((i : ℕ) → IsSettling i s)
    → IsCounted s
    → IsCounted (record_write key error now s)
unfolding record_write fail held
record_write-IsCounted key error now s a v =
    (elim s.state
        as (λ st.
          ((i : ℕ) → IsSettling i (record s { state = st }))
          → IsCounted (record s { state = st })
          → IsCounted (record_write key error now (record s { state = st }))) [
            | ended e ↦ λ a v. v
            | opened q ↦ λ a v. elim (Option-cases (lookup key q.operations)) [
              | inl e ↦ rw (e, record_write) v
              | inr (op, e) ↦
                  (let counted = λ (r : Outcome) (h : held (some r) ≡ 0).
                      settle-Counts (queued q.incoming) key s.next_key q.operations op r s.ledger
                        (a 0).keyed e (λ i. (a i).settles) (omega (arith, v.counts, h)) in
                    rw (e, record_write)
                      (ground (
                        arith,
                        v.within,
                        counted written refl,
                        counted (failure timeout) refl,
                        counted (failure (write_error error)) refl,
                        retained-send op written s.ledger,
                        retained-send op (failure timeout) s.ledger,
                        retained-send op (failure (write_error error)) s.ledger,
                      )))
            ]
          ])
      a v
