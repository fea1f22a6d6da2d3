-- ===== src/Protocol/Session/Working/Sleeping.antt =====
-- When the deadline worker of src/protocol/session.rs sleeps, and for how long.
use wire_rs.Base.{
  ℕ, ◌+◌, ◌<◌, ◌≤◌, ◌≡◌, refl, ◌⊎◌, inl, inr, Bool-cases, Option, none, some, List, [], ◌∷◌, length,
  arith, ◌==◌, leb, min, ==_refl,
}
use native.Mathlib.Decide.{dec_le}
use wire_rs.Protocol.Errors.{Error, timeout}
use wire_rs.Protocol.Promises.{Ledger}
use wire_rs.Protocol.Session.{Session, Queues, State, Operation, opened, ended}
use wire_rs.Protocol.Session.Ending.{expire, expired, live, fail_all, expire_queues}
use wire_rs.Protocol.Session.Working.{
  Rest, again, returns, sleeps, earliest, rest_at, deadline_pass,
}

abbrev pub operations_in : State → List (ℕ × Operation)
operations_in (ended e) = []
operations_in (opened q) = q.operations

abbrev pub AllFrom : ℕ → List (ℕ × Operation) → Type 0
AllFrom d [] = Unit {0}
AllFrom d ((k, op) ∷ ops) = (d ≤ op.deadline) × AllFrom d ops

abbrev pub Falls : ℕ → List (ℕ × Operation) → Type 0
Falls d [] = ⊥
Falls d ((k, op) ∷ ops) = (op.deadline ≡ d) ⊎ Falls d ops

-- Nothing is pending, or the first deadline is ahead and it is that of a pending operation.
abbrev pub Wakes : ℕ → Option ℕ → List (ℕ × Operation) → Type 0
Wakes now none ops = ops ≡ []
Wakes now (some d) ops = (now < d) × AllFrom d ops × Falls d ops

-- A pass of the worker that starts in `s`.
abbrev pub Rests : ℕ → Session → Session × Rest → Type 0
Rests now s (t, again) = length (operations_in t.state) < length (operations_in s.state)
Rests now s (t, returns) = (e : Error) × (t.state ≡ ended e)
Rests now s (t, sleeps wake) = (q : Queues) × (t.state ≡ opened q) × Wakes now wake q.operations

AllFrom-le : (c d : ℕ) (ops : List (ℕ × Operation)) → c ≤ d → AllFrom d ops → AllFrom c ops
AllFrom-le c d [] l v = tt
AllFrom-le c d ((k, op) ∷ ops) l v = (omega arith, AllFrom-le c d ops l v.1)

Falls-min :
    (a d : ℕ) (ops : List (ℕ × Operation)) → Falls d ops → (a ≡ min a d) ⊎ Falls (min a d) ops
Falls-min a d ops f = elim (dec_le a d) [
  | yes l ↦ inl (omega arith)
  | no l ↦ let e : min a d ≡ d = omega arith in inr (rw e f)
]

Wakes-cons :
    (now k : ℕ) (op : Operation) (ops : List (ℕ × Operation)) (w : Option ℕ)
    → now < op.deadline
    → earliest ops ≡ w
    → Wakes now w ops
    → Wakes now (earliest ((k, op) ∷ ops)) ((k, op) ∷ ops)
Wakes-cons now k op ops none l e v = rw e (l, (omega arith, rw v tt), inl refl)
Wakes-cons now k op ops (some d) l e v = rw e (
  omega arith,
  (omega arith, AllFrom-le (min op.deadline d) d ops (omega arith) v.1),
  Falls-min op.deadline d ops v.2,
)

live-Wakes :
    (now : ℕ) (ops : List (ℕ × Operation)) → Wakes now (earliest (live now ops)) (live now ops)
unfolding live
live-Wakes now [] = refl
live-Wakes now ((k, op) ∷ ops) = elim (Bool-cases (leb op.deadline now)) [
  | inl e ↦ rw e (live-Wakes now ops)
  | inr e ↦ rw e (Wakes-cons now k op (live now ops) _ (ground arith) refl (live-Wakes now ops))
]

length-live-expired :
    (now : ℕ) (ops : List (ℕ × Operation))
    → length (live now ops) + length (expired now ops) ≡ length ops
unfolding live expired
length-live-expired now [] = omega arith
length-live-expired now ((k, op) ∷ ops) = ground (arith, length-live-expired now ops)

fail_all_none :
    (ops : List (ℕ × Operation)) (e : Error) (now : ℕ) (l : Ledger)
    → length ops ≡ 0
    → fail_all ops e now l ≡ l
unfolding fail_all
fail_all_none [] e now l h = refl
fail_all_none (op ∷ ops) e now l h = absurd (omega arith)

Rests-rest_at :
    (now : ℕ) (s t : Session) (st : State)
    → t.state ≡ st
    → Wakes now (earliest (operations_in st)) (operations_in st)
    → Rests now s (rest_at st t)
Rests-rest_at now s t (ended e) h v = (e, h)
Rests-rest_at now s t (opened q) h v = (q, h, v)

expire-ended : (now : ℕ) (s : Session) (e : Error) → s.state ≡ ended e → expire now s ≡ s
unfolding expire
expire-ended now s e h = ground arith

record Expiring (now : ℕ) (s : Session) (q : Queues) : Type 0 where
  shape : (expire now s).state ≡ opened (expire_queues now q)
  settled :
      length (expired now q.operations) ≡ 0
      → length (expire now s).ledger.callbacks ≡ length s.ledger.callbacks

expire-Expiring : (now : ℕ) (s : Session) (q : Queues) → s.state ≡ opened q → Expiring now s q
unfolding expire
expire-Expiring now s q h = record {
  shape = ground arith;
  settled = λ z. ground (arith, fail_all_none (expired now q.operations) timeout now s.ledger z);
}

pass_of : (now : ℕ) (s : Session) (st : State) → s.state ≡ st → Rests now s (deadline_pass now s)
unfolding deadline_pass expire_queues
pass_of now s (ended e) h =
    simp (expire-ended now s e h, ==_refl) (Rests-rest_at now s s s.state refl (rw h refl))
pass_of now s (opened q) h =
    let x : Expiring now s q = expire-Expiring now s q h in
    elim (Bool-cases (length (expire now s).ledger.callbacks == length s.ledger.callbacks)) [
      | inl e ↦ rw e (
          Rests-rest_at now s (expire now s) (expire now s).state refl
            (rw x.shape (live-Wakes now q.operations)))
      | inr e ↦ rw (e, x.shape, h) (ground (arith, x.settled, length-live-expired now q.operations))
    ]

-- The deadline worker, whenever it makes a pass at `now`: it sleeps in an open session, until the
-- deadline of a pending operation that is ahead and that no other one precedes, or without a limit if
-- nothing is pending; it returns only once the session is closed; and it starts again only with fewer
-- operations pending.
pub deadline_pass-Rests : (now : ℕ) (s : Session) → Rests now s (deadline_pass now s)
deadline_pass-Rests now s = pass_of now s s.state refl
