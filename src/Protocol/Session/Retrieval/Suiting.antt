-- ===== src/Protocol/Session/Retrieval/Suiting.antt =====
-- The `unreachable!`s of `PromiseResult::response` and `PromiseResult::written` of
-- src/protocol/promise.rs, in the two calls that wait on a promise.
use wire_rs.Base.{Bool, ℕ, ◌≡◌, ◌≢◌, refl, true, false, Option, none, some, List, [], ◌∷◌, arith}
use wire_rs.Protocol.Ids.{Side}
use wire_rs.Protocol.Errors.{Error, timeout}
use wire_rs.Protocol.Promises.{Promise, Ledger, Outcome, send, wait_result}
use wire_rs.Protocol.Promises.Settling.{promise_at, promise_at-send}
use wire_rs.Protocol.Envelope.{Schema}
use wire_rs.Protocol.Session.{Session, Operation, opened, ended}
use wire_rs.Protocol.Session.Ending.{fail, fail_all, expire, expired}
use wire_rs.Protocol.Session.Steps
use wire_rs.Protocol.Session.Invariant.Suited.{Reach-IsSuited}
use wire_rs.Protocol.Session.Retrieval.{unsuited, wait_message, wait_written, open_envelope}

-- The promise is still that of a request, or of a reply.
abbrev IsKept : Promise → Option Promise → Type 0
IsKept p none = ⊥
IsKept p (some p') = p'.wants ≡ p.wants

send-IsKept :
    (i : ℕ) (op : Operation) (r : Outcome) (l : Ledger) (p : Promise)
    → IsKept p (promise_at i l)
    → IsKept p (promise_at i (send op.sender r l).0)
send-IsKept i op r l p v = ground (arith, promise_at-send i op.sender r l)

fail_all-IsKept :
    (i : ℕ) (ops : List (ℕ × Operation)) (e : Error) (now : ℕ) (l : Ledger) (p : Promise)
    → IsKept p (promise_at i l)
    → IsKept p (promise_at i (fail_all ops e now l))
unfolding fail_all fail
fail_all-IsKept i [] e now l p v = v
fail_all-IsKept i ((k, op) ∷ ops) e now l p v =
    fail_all-IsKept i ops e now _ p (send-IsKept i op _ l p v)

expire-IsKept :
    (i now : ℕ) (s : Session) (p : Promise)
    → promise_at i s.ledger ≡ some p
    → IsKept p (promise_at i (expire now s).ledger)
unfolding expire
expire-IsKept i now s p e =
    (elim s.state as (λ st. IsKept p (promise_at i (expire now (record s { state = st })).ledger)) [
      | ended x ↦ rw e refl
      | opened q ↦ fail_all-IsKept i (expired now q.operations) timeout now s.ledger p (rw e refl)
    ])

module _ (schema : Schema) (encode_buffer : ℕ → ℕ) where
  -- The wait of a request's promise, and that of a reply's, does not panic.
  abbrev pub Returns : ℕ → ℕ → ℕ → Session → Bool → Type 0
  Returns i now later s true = (wait_message schema encode_buffer i now later s).1 ≢ unsuited
  Returns i now later s false = (wait_written i now s).1 ≢ unsuited

  -- In a reachable session, waiting for the answer to a request never finds the end of a write, and
  -- waiting for the end of a reply's write never finds an answer.
  pub wait-no_panic :
      (side : Side) (s : Session) (i now later : ℕ) (p : Promise)
      → Steps.Reach side s
      → promise_at i s.ledger ≡ some p
      → Returns i now later s p.wants
  unfolding wait_message wait_written wait_result open_envelope
  wait-no_panic side s i now later p r e =
      let suited = Reach-IsSuited side (expire now s) i (Steps.next r (Steps.expires now)) in
      ground (arith, suited, expire-IsKept i now s p e)
