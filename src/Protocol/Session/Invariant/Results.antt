-- ===== src/Protocol/Session/Invariant/Results.antt =====
-- Which results the promises of a session can hold, of those that src/protocol/promise.rs names: a
-- response for the promise of a request, and the end of the write for that of a reply.
use wire_rs.Base.{
  ℕ, ◌+◌, ◌≤◌, ◌≡◌, refl, Bool, true, false, not, Option, none, some, List, [], ◌∷◌, arith, ◌==◌,
  if◌then◌else◌, lookup, remove, Option-cases, inl, inr,
}
use wire_rs.Protocol.Errors.{Error}
use wire_rs.Protocol.Promises.{Promise, Ledger, Outcome, response, written, failure, send}
use wire_rs.Protocol.Promises.Settling.{promise_at, promise_at-send}
use wire_rs.Protocol.Session.{Session, Operation}
use wire_rs.Protocol.Session.Ending.{fail, fail_all, live}
use wire_rs.Protocol.Session.Writer.{label}
use wire_rs.Protocol.Session.Invariant.Operations.{owners, operations_of}

-- Whether the promise of a request, or that of a reply, can have this result.
abbrev pub suits : Bool → Option Outcome → Bool
suits wants none = true
suits wants (some (response e)) = wants
suits wants (some written) = not wants
suits wants (some (failure e)) = true

abbrev pub differ : Bool → Bool → ℕ
differ true true = 0
differ false false = 0
differ true false = 1
differ false true = 1

-- How many operations are to settle promise `i` with a result of the other kind.
abbrev pub mismatches : ℕ → Bool → List (ℕ × Operation) → ℕ
mismatches i wants [] = 0
mismatches i wants ((k, op) ∷ ops) =
    (if op.sender.promise == i then differ wants op.sender.response else 0) + mismatches i wants ops

abbrev pub Suits : ℕ → Option Promise → List (ℕ × Operation) → Type 0
Suits i none ops = Unit {0}
Suits i (some p) ops = (suits p.wants p.result ≡ true) × (mismatches i p.wants ops ≡ 0)

abbrev pub IsSuited : ℕ → Session → Type 0
IsSuited i s = Suits i (promise_at i s.ledger) (operations_of s.state)

pub mismatches-owners :
    (i : ℕ) (wants : Bool) (ops : List (ℕ × Operation)) → mismatches i wants ops ≤ owners i ops
mismatches-owners i wants [] = omega arith
mismatches-owners i wants ((k, op) ∷ ops) = ground (arith, mismatches-owners i wants ops)

pub mismatches-live :
    (i : ℕ) (wants : Bool) (now : ℕ) (ops : List (ℕ × Operation))
    → mismatches i wants (live now ops) ≤ mismatches i wants ops
unfolding live
mismatches-live i wants now [] = omega arith
mismatches-live i wants now ((k, op) ∷ ops) = ground (arith, mismatches-live i wants now ops)

pub mismatches-remove :
    (i : ℕ) (wants : Bool) (key : ℕ) (ops : List (ℕ × Operation))
    → mismatches i wants (remove key ops) ≤ mismatches i wants ops
unfolding remove
mismatches-remove i wants key [] = omega arith
mismatches-remove i wants key ((k, op) ∷ ops) = ground (arith, mismatches-remove i wants key ops)

pub mismatches-label :
    (i : ℕ) (wants : Bool) (key id : ℕ) (ops : List (ℕ × Operation))
    → mismatches i wants (label key id ops) ≡ mismatches i wants ops
mismatches-label i wants key id [] = refl
mismatches-label i wants key id ((k, op) ∷ ops) =
    ground (arith, mismatches-label i wants key id ops)

matches_of_lookup :
    (i : ℕ) (wants : Bool) (key : ℕ) (ops : List (ℕ × Operation)) (op : Operation)
    → mismatches i wants ops ≡ 0
    → lookup key ops ≡ some op
    → op.sender.promise ≡ i
    → op.sender.response ≡ wants
unfolding lookup
matches_of_lookup i wants key [] op v h e = ground arith
matches_of_lookup i wants key ((k, x) ∷ ops) op v h e =
    ground (arith, matches_of_lookup i wants key ops op)

-- Whatever is left of the operations, the promise stays suited.
pub Suits-mono :
    (i : ℕ) (o : Option Promise) (ops rest : List (ℕ × Operation))
    → ((wants : Bool) → mismatches i wants rest ≤ mismatches i wants ops)
    → Suits i o ops
    → Suits i o rest
Suits-mono i none ops rest m v = tt
Suits-mono i (some p) ops rest m v = (v.0, omega (arith, m p.wants, v.1))

pub failure-Suits :
    (i : ℕ) (op : Operation) (e : Error) (l : Ledger) (ops : List (ℕ × Operation))
    → Suits i (promise_at i l) ops
    → Suits i (promise_at i (send op.sender (failure e) l).0) ops
failure-Suits i op e l ops v = ground (arith, promise_at-send i op.sender (failure e) l)

pub fail_all-Suits :
    (i : ℕ) (failed : List (ℕ × Operation)) (e : Error) (now : ℕ) (l : Ledger)
    (ops : List (ℕ × Operation))
    → Suits i (promise_at i l) ops
    → Suits i (promise_at i (fail_all failed e now l)) ops
unfolding fail_all fail
fail_all-Suits i [] e now l ops v = v
fail_all-Suits i ((k, op) ∷ failed) e now l ops v =
    fail_all-Suits i failed e now _ ops (failure-Suits i op _ l ops v)

-- A result of the operation's own kind reaches the promise.
pub settle-Suits :
    (i key : ℕ) (op : Operation) (r : Outcome) (l : Ledger) (ops : List (ℕ × Operation))
    → suits op.sender.response (some r) ≡ true
    → lookup key ops ≡ some op
    → Suits i (promise_at i l) ops
    → Suits i (promise_at i (send op.sender r l).0) (remove key ops)
settle-Suits i key op r l ops k h v = elim (Option-cases (promise_at i l)) [
  | inl e ↦ ground (arith, promise_at-send i op.sender r l)
  | inr (p, e) ↦ ground (
    arith,
    promise_at-send i op.sender r l,
    matches_of_lookup i p.wants key ops op,
    mismatches-remove i p.wants key ops,
  )
]
