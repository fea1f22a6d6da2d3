-- ===== src/Transport/Framing/Splitting.antt =====
-- The frames of a byte stream, independently of `FrameReader` of src/transport/framing.rs.
use wire_rs.Base.{
  ℕ, zero, suc, ◌+◌, ◌-◌, ◌<◌, ◌≤◌, ◌≡◌, refl, Bool, true, false, Option, none, some, List, [], ◌∷◌,
  ◌++◌, length, take, drop, get_elem?, ◌==◌, if◌then◌else◌, arith, append_assoc, append-nil,
  length-append, length-take, take_add, split_at, get_elem?-drop, ◌∙◌,
}
use wire_rs.Transport.Framing.{new_reader, FrameReader, max_frame_size}

pub data Token : Type 0 where
  complete : List ℕ → Token
  oversized : Token

-- The frames of a stream, byte by byte: the bytes of the frame so far, and whether it was found to be
-- too large.
abbrev pub split : Bool → List ℕ → List ℕ → List Token
split skipping acc [] = []
split true acc (b ∷ bs) = if b == 0 then split false [] bs else split true [] bs
split false acc (b ∷ bs) =
    if b == 0
    then complete acc ∷ split false [] bs
    else if length acc == max_frame_size
    then oversized ∷ split true [] bs
    else split false (acc ++ (b ∷ [])) bs

abbrev pub IsZeroFree : List ℕ → Type 0
IsZeroFree [] = Unit {0}
IsZeroFree (b ∷ bs) = (0 < b) × IsZeroFree bs

-- What the search for a zero finds.
pub record IsMemchr (memchr : List ℕ → Option ℕ) : Type 0 where
  pub absent : (xs : List ℕ) → memchr xs ≡ none → IsZeroFree xs
  pub present :
      (xs : List ℕ) (n : ℕ)
      → memchr xs ≡ some n
      → IsZeroFree (take n xs) × (get_elem? xs n ≡ some 0)

pub split_skipping :
    (xs rest : List ℕ) → IsZeroFree xs → split true [] (xs ++ rest) ≡ split true [] rest
split_skipping [] rest z = refl
split_skipping (x ∷ xs) rest z = ground (arith, split_skipping xs rest z.1)

pub split_within :
    (acc xs rest : List ℕ)
    → IsZeroFree xs
    → length acc + length xs ≤ max_frame_size
    → split false acc (xs ++ rest) ≡ split false (acc ++ xs) rest
split_within acc [] rest z h = rw append-nil refl
split_within acc (x ∷ xs) rest z h = grind (
  arith,
  split_within (acc ++ (x ∷ [])) xs rest z.1,
  length-append acc (x ∷ []),
  append_assoc acc (x ∷ []) xs,
)

pub split_full :
    (acc xs rest : List ℕ)
    → IsZeroFree xs
    → length acc + length xs ≡ suc max_frame_size
    → 0 < length xs
    → split false acc (xs ++ rest) ≡ (oversized ∷ split true [] rest)
split_full acc [] rest z h p = ground arith
split_full acc (x ∷ []) rest z h p = ground arith
split_full acc (x ∷ y ∷ xs) rest z h p =
    grind (arith, split_full (acc ++ (x ∷ [])) (y ∷ xs) rest z.1, length-append acc (x ∷ []))

pub IsZeroFree-append : (xs ys : List ℕ) → IsZeroFree xs → IsZeroFree ys → IsZeroFree (xs ++ ys)
IsZeroFree-append [] ys v w = w
IsZeroFree-append (x ∷ xs) ys v w = (v.0, IsZeroFree-append xs ys v.1 w)

pub IsZeroFree-take : (n : ℕ) (xs : List ℕ) → IsZeroFree xs → IsZeroFree (take n xs)
IsZeroFree-take zero xs v = tt
IsZeroFree-take (suc n) [] v = tt
IsZeroFree-take (suc n) (x ∷ xs) v = (v.0, IsZeroFree-take n xs v.1)

-- The bytes that a reader has received and not consumed.
abbrev pub pending : FrameReader → List ℕ
pending r = drop r.offset r.buffer

pub record IsReader (r : FrameReader) : Type 0 where
  pub order : r.offset ≤ r.search
  pub inside : r.search ≤ length r.buffer
  pub fits : length r.buffer ≤ suc max_frame_size
  pub scanned : IsZeroFree (take (r.search - r.offset) (pending r))
  pub start : r.discard ≡ true → (r.search ≡ 0) × (r.offset ≡ 0)

pub split_found :
    (p rest : List ℕ) (n : ℕ)
    → IsZeroFree (take n p)
    → get_elem? p n ≡ some 0
    → length p ≤ suc max_frame_size
    → (split false [] (p ++ rest) ≡ (complete (take n p) ∷ split false [] (drop (suc n) p ++ rest)))
      × (split true [] (p ++ rest) ≡ split false [] (drop (suc n) p ++ rest))
split_found p rest n z g l = grind (
  arith,
  split_at n 0 p g,
  split_within [] (take n p) (0 ∷ drop (suc n) p ++ rest) z,
  split_skipping (take n p) (0 ∷ drop (suc n) p ++ rest) z,
  length-take n p,
  append_assoc (take n p) (0 ∷ drop (suc n) p) rest,
)

-- A zero found in what has not been searched is the first one of what is pending.
pub first_zero :
    (p : List ℕ) (k n : ℕ)
    → IsZeroFree (take k p)
    → IsZeroFree (take n (drop k p))
    → get_elem? (drop k p) n ≡ some 0
    → IsZeroFree (take (k + n) p) × (get_elem? p (k + n) ≡ some 0)
first_zero p k n z w g =
    (rw take_add (IsZeroFree-append (take k p) (take n (drop k p)) z w), get_elem?-drop k n p ∙ g)

abbrev pub tokens : FrameReader → List ℕ → List Token
tokens r rest = split r.discard [] (pending r ++ rest)

pub new_reader-IsReader : IsReader new_reader
new_reader-IsReader = record {
  order = omega arith;
  inside = omega arith;
  fits = omega arith;
  scanned = tt;
  start = ground arith;
}
