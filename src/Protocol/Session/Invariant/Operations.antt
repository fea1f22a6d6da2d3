-- ===== src/Protocol/Session/Invariant/Operations.antt =====
-- The map of pending operations: its keys, and which operations own a promise.
use wire_rs.Base.{
  ℕ, ◌+◌, ◌≡◌, refl, none, some, List, [], ◌∷◌, arith, ◌==◌, if◌then◌else◌, Keyed, lookup, remove,
  remove_of_none,
}
use wire_rs.Protocol.Session.{Operation, State, opened, ended}
use wire_rs.Protocol.Session.Ending.{expired, live}
use wire_rs.Protocol.Session.Writer.{label}

abbrev pub owns : ℕ → Operation → ℕ
owns i op = if op.sender.promise == i then 1 else 0

-- How many operations are to settle promise `i`.
abbrev pub owners : ℕ → List (ℕ × Operation) → ℕ
owners i [] = 0
owners i ((k, op) ∷ ops) = owns i op + owners i ops

abbrev pub operations_of : State → List (ℕ × Operation)
operations_of (ended e) = []
operations_of (opened q) = q.operations

pub owners-remove :
    (i key n : ℕ) (ops : List (ℕ × Operation)) (op : Operation)
    → Keyed n ops
    → lookup key ops ≡ some op
    → owners i ops ≡ owners i (remove key ops) + owns i op
unfolding lookup remove
owners-remove i key n [] op v h = ground arith
owners-remove i key n ((k, x) ∷ ops) op v h =
    ground (arith, owners-remove i key n ops op v.2, remove_of_none key ops)

pub owners-live :
    (i now : ℕ) (ops : List (ℕ × Operation))
    → owners i ops ≡ owners i (live now ops) + owners i (expired now ops)
unfolding live expired
owners-live i now [] = ground arith
owners-live i now ((k, op) ∷ ops) = ground (arith, owners-live i now ops)

lookup-live :
    (k now : ℕ) (ops : List (ℕ × Operation)) → lookup k ops ≡ none → lookup k (live now ops) ≡ none
unfolding live lookup
lookup-live k now [] h = refl
lookup-live k now ((j, op) ∷ ops) h = ground (arith, lookup-live k now ops)

pub Keyed-live : (n now : ℕ) (ops : List (ℕ × Operation)) → Keyed n ops → Keyed n (live now ops)
unfolding live
Keyed-live n now [] v = tt
Keyed-live n now ((k, op) ∷ ops) v = ground (arith, Keyed-live n now ops v.2, lookup-live k now ops)

pub owners-label :
    (i key id : ℕ) (ops : List (ℕ × Operation)) → owners i (label key id ops) ≡ owners i ops
owners-label i key id [] = refl
owners-label i key id ((k, op) ∷ ops) = ground (arith, owners-label i key id ops)

lookup-label :
    (k key id : ℕ) (ops : List (ℕ × Operation))
    → lookup k ops ≡ none
    → lookup k (label key id ops) ≡ none
unfolding lookup
lookup-label k key id [] h = refl
lookup-label k key id ((j, op) ∷ ops) h = ground (arith, lookup-label k key id ops)

pub Keyed-label :
    (n key id : ℕ) (ops : List (ℕ × Operation)) → Keyed n ops → Keyed n (label key id ops)
Keyed-label n key id [] v = tt
Keyed-label n key id ((k, op) ∷ ops) v =
    ground (arith, Keyed-label n key id ops v.2, lookup-label k key id ops)
