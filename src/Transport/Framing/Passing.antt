-- ===== src/Transport/Framing/Passing.antt =====
-- One iteration of `next_frame` of src/transport/framing.rs.
use wire_rs.Base.{
  ℕ, suc, ◌+◌, ◌-◌, ◌<◌, ◌≤◌, ◌≡◌, refl, Bool, true, false, Option, some, List, [], ◌∷◌, ◌++◌,
  length, take, drop, get_elem?, ◌==◌, arith, length-drop, take-append-drop, split_at, drop-drop,
  Option-cases, Bool-cases, inl, inr, ap, subst, ◌∙◌,
}
use native.Mathlib.Nat.{sub_self}
use wire_rs.Transport.Framing.{
  FrameReader, frame, too_large, terminated, late, failed, panicked, Pass, returns, repeats, reads,
  iterate, is_late, max_frame_size, found_at, check_full, compact,
}
use wire_rs.Transport.Framing.Splitting.{
  complete, oversized, split, IsZeroFree, IsMemchr, split_skipping, split_full, IsZeroFree-append,
  IsZeroFree-take, split_found, first_zero, pending, IsReader, tokens,
}

-- What one iteration does to the frames of the stream, with `rest` still to arrive.
abbrev pub Passes : FrameReader → List ℕ → Pass → Type 0
Passes r rest (returns (frame f) r') = (tokens r rest ≡ (complete f ∷ tokens r' rest)) × IsReader r'
Passes r rest (returns too_large r') = (tokens r rest ≡ (oversized ∷ tokens r' rest)) × IsReader r'
Passes r rest (returns late r') = (tokens r rest ≡ tokens r' rest) × IsReader r'
Passes r rest (returns terminated r') = ⊥
Passes r rest (returns failed r') = ⊥
Passes r rest (returns panicked r') = ⊥
Passes r rest (repeats r') =
    (tokens r rest ≡ tokens r' rest) × IsReader r' × (r.discard ≡ true) × (r'.discard ≡ false)
Passes r rest (reads r') =
    (tokens r rest ≡ tokens r' rest)
    × IsReader r'
    × (r'.offset ≡ 0)
    × (r'.search ≡ length r'.buffer)
    × (length r'.buffer < suc max_frame_size)
    × IsZeroFree r'.buffer

record Found (r : FrameReader) (n : ℕ) : Type 0 where
  free : IsZeroFree (take (r.search + n - r.offset) (pending r))
  zero_at : get_elem? (pending r) (r.search + n - r.offset) ≡ some 0
  after : drop (suc (r.search + n - r.offset)) (pending r) ≡ drop (suc (r.search + n)) r.buffer
  bound : suc (r.search + n) ≤ length r.buffer

find-Found :
    (r : FrameReader) (n : ℕ)
    → IsReader r
    → IsZeroFree (take n (drop r.search r.buffer))
    → get_elem? (drop r.search r.buffer) n ≡ some 0
    → Found r n
find-Found r n v z g =
    let k : ℕ = r.search - r.offset in
    let o : r.offset + k ≡ r.search = omega (arith, v.order) in
    let e : r.search + n - r.offset ≡ k + n = omega (arith, v.order) in
    let d : drop k (pending r) ≡ drop r.search r.buffer =
      drop-drop k r.offset r.buffer ∙ ap (λ j. drop j r.buffer) o in
    let (a, b) = first_zero (pending r) k n v.scanned (rw d z) (rw d g) in
    record {
      free = rw e a;
      zero_at = rw e b;
      after =
          drop-drop (suc (r.search + n - r.offset)) r.offset r.buffer
          ∙ ap (λ j. drop j r.buffer) {y = suc (r.search + n)} (omega (arith, v.order));
      bound = omega (
        arith,
        (split_at n 0 (drop r.search r.buffer) g).1,
        length-drop r.search r.buffer,
        v.inside,
      );
    }

consumed-IsReader :
    (buffer : List ℕ) (end : ℕ)
    → end ≤ length buffer
    → length buffer ≤ suc max_frame_size
    → IsReader (record { buffer = buffer; offset = end; search = end; discard = false })
consumed-IsReader buffer end b l = record {
  order = omega arith;
  inside = b;
  fits = l;
  scanned = rw sub_self tt;
  start = ground arith;
}

found_at-Passes :
    (r : FrameReader) (n : ℕ) (rest : List ℕ)
    → IsReader r
    → Found r n
    → Passes r rest (found_at r (r.search + n))
found_at-Passes r n rest v f =
    let l : length (pending r) ≤ suc max_frame_size =
      omega (arith, length-drop r.offset r.buffer, v.fits) in
    let (a, b) = split_found (pending r) rest (r.search + n - r.offset) f.free f.zero_at l in
    elim (Bool-cases r.discard) [
      | inl e ↦ rw e (
        b ∙ ap (λ t. split false [] (t ++ rest)) f.after,
        consumed-IsReader r.buffer (suc (r.search + n)) f.bound v.fits,
        refl,
        refl,
      )
      | inr e ↦ rw e (
        a
            ∙ ap
                (λ t.
                  complete (take (r.search + n - r.offset) (pending r))
                  ∷ split false [] (t ++ rest))
                f.after,
        consumed-IsReader r.buffer (suc (r.search + n)) f.bound v.fits,
      )
    ]

pending-IsZeroFree :
    (r : FrameReader) → IsReader r → IsZeroFree (drop r.search r.buffer) → IsZeroFree (pending r)
pending-IsZeroFree r v z =
    let k : ℕ = r.search - r.offset in
    let d : drop k (pending r) ≡ drop r.search r.buffer =
      drop-drop k r.offset r.buffer
      ∙ ap (λ j. drop j r.buffer) {y = r.search} (omega (arith, v.order)) in
    subst IsZeroFree (take-append-drop k (pending r))
      (IsZeroFree-append (take k (pending r)) _ v.scanned (rw d z))

empty-IsReader :
    (discard : Bool) → IsReader (record { buffer = []; offset = 0; search = 0; discard = discard })
empty-IsReader discard = record {
  order = omega arith;
  inside = omega arith;
  fits = omega arith;
  scanned = tt;
  start = λ e. (refl, refl);
}

searched-IsReader :
    (p : List ℕ)
    → IsZeroFree p
    → length p ≤ suc max_frame_size
    → IsReader (record { buffer = p; offset = 0; search = length p; discard = false })
searched-IsReader p z l = record {
  order = omega arith;
  inside = omega arith;
  fits = l;
  scanned = IsZeroFree-take _ p z;
  start = ground arith;
}

check_full-Passes :
    (r : FrameReader) (rest : List ℕ)
    → IsReader r
    → IsZeroFree (pending r)
    → Passes r rest (check_full (compact r))
unfolding max_frame_size
check_full-Passes r rest v z =
    let l : length (pending r) ≤ suc max_frame_size =
      omega (arith, length-drop r.offset r.buffer, v.fits) in
    elim (Bool-cases r.discard) [
      | inl e ↦
          rw e (split_skipping (pending r) rest z, empty-IsReader true, refl, refl, omega arith, tt)
      | inr e ↦ rw e (elim (Bool-cases (length (pending r) == suc max_frame_size)) [
        | inl f ↦
            rw f
              (split_full [] (pending r) rest z (ground arith) (ground arith), empty-IsReader true)
        | inr f ↦ rw f (refl, searched-IsReader (pending r) z l, refl, refl, ground arith, z)
      ])
    ]

module _ (memchr : List ℕ → Option ℕ) (finds : IsMemchr memchr) where
  pub iterate-Passes :
      (deadline : Option ℕ) (now : ℕ) (r : FrameReader) (rest : List ℕ)
      → IsReader r
      → Passes r rest (iterate memchr deadline now r)
  unfolding iterate
  iterate-Passes deadline now r rest v = elim (Bool-cases (is_late deadline now)) [
    | inl e ↦ rw e (refl, v)
    | inr e ↦ rw e (elim (Option-cases (memchr (drop r.search r.buffer))) [
      | inl f ↦ rw f (check_full-Passes r rest v (pending-IsZeroFree r v (finds.absent _ f)))
      | inr (n, f) ↦
          rw f
            (let (z, g) = finds.present _ n f in found_at-Passes r n rest v (find-Found r n v z g))
    ])
  ]
