-- ===== src/Base/MapLaws.antt =====
-- The laws of the maps and sets.
use Prim.Native.Nat.{ℕ, ◌≤◌, ◌<◌}
use mathlib.Core.Path.{◌≡◌, refl}
use mathlib.Core.Bool.{true, false}
use mathlib.Core.List.{List, [], ◌∷◌}
use mathlib.Core.Option.{none, some}
use native.Mathlib.Omega.{arith}
use wire_rs.Base.Tests.{◌==◌, if◌then◌else◌}
use wire_rs.Base.Lists.{length}
use wire_rs.Base.Maps.{lookup, remove, insert, contains, remove_id, count, Keyed}

pub count-contains : (k : ℕ) (xs : List ℕ) → contains k xs ≡ false → count k xs ≡ 0
unfolding contains
count-contains k [] h = refl
count-contains k (x ∷ xs) h = ground (arith, count-contains k xs)

pub contains-count : (k : ℕ) (xs : List ℕ) → contains k xs ≡ true → 1 ≤ count k xs
unfolding contains
contains-count k [] h = ground arith
contains-count k (x ∷ xs) h = ground (arith, contains-count k xs)

pub count-remove_id :
    (k j : ℕ) (xs : List ℕ) → count k (remove_id j xs) ≡ (if j == k then 0 else count k xs)
unfolding remove_id
count-remove_id k j [] = ground arith
count-remove_id k j (x ∷ xs) = ground (arith, count-remove_id k j xs)

pub length-remove_id-le : (j : ℕ) (xs : List ℕ) → length (remove_id j xs) ≤ length xs
unfolding remove_id
length-remove_id-le j [] = ground arith
length-remove_id-le j (x ∷ xs) = ground (arith, length-remove_id-le j xs)

module _ {ℓ} {V : Type ℓ} where
  pub lookup-remove :
      (k j : ℕ) (m : List (ℕ × V)) → lookup k (remove j m) ≡ (if j == k then none else lookup k m)
  unfolding lookup remove
  lookup-remove k j [] = ground arith
  lookup-remove k j ((i, v) ∷ m) = ground (arith, lookup-remove k j m)

  pub lookup-insert :
      (k j : ℕ) (v : V) (m : List (ℕ × V))
      → lookup k (insert j v m) ≡ (if j == k then some v else lookup k m)
  unfolding lookup insert
  lookup-insert k j v m = ground (arith, lookup-remove k j m)

  pub remove_of_none : (k : ℕ) (m : List (ℕ × V)) → lookup k m ≡ none → remove k m ≡ m
  unfolding lookup remove
  remove_of_none k [] h = refl
  remove_of_none k ((i, v) ∷ m) h = ground (arith, remove_of_none k m)

  pub Keyed-mono : (n n' : ℕ) (m : List (ℕ × V)) → n ≤ n' → Keyed n m → Keyed n' m
  Keyed-mono n n' [] h v = tt
  Keyed-mono n n' ((k, x) ∷ m) h (a, b, c) = (omega arith, b, Keyed-mono n n' m h c)

  pub lookup_above : (n k : ℕ) (m : List (ℕ × V)) → n ≤ k → Keyed n m → lookup k m ≡ none
  unfolding lookup
  lookup_above n k [] h v = refl
  lookup_above n k ((i, x) ∷ m) h v = ground (arith, lookup_above n k m h v.2)

  pub Keyed-remove : (n j : ℕ) (m : List (ℕ × V)) → Keyed n m → Keyed n (remove j m)
  unfolding remove
  Keyed-remove n j [] v = tt
  Keyed-remove n j ((i, x) ∷ m) v = ground (arith, Keyed-remove n j m v.2, lookup-remove i j m)

  pub Keyed-insert :
      (n k : ℕ) (x : V) (m : List (ℕ × V)) → k < n → Keyed n m → Keyed n (insert k x m)
  unfolding insert
  Keyed-insert n k x m h v = (h, rw lookup-remove (ground arith), Keyed-remove n k m v)
