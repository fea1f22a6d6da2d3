-- ===== src/Transport/Framing/Supply.antt =====
-- A steady input of `next_frame` of src/transport/framing.rs: no deadline, and one byte at a time.
use wire_rs.Base.{
  ℕ, suc, ◌+◌, ◌≡◌, refl, Option, none, List, [], ◌∷◌, ◌++◌, length, arith, ltb, Bool-cases, inl,
  inr,
}
use wire_rs.Transport.Framing.{
  FrameReader, Arrival, chunk, fails, Got, frame, too_large, terminated, late, failed, panicked,
  Pass, returns, repeats, reads, is_late, iterate, advance, next_frame, max_frame_size,
}
use wire_rs.Transport.Framing.Delivering.{HasLong}

-- Every arrival is one byte.
abbrev pub IsSteady : List Arrival → Type 0
IsSteady [] = Unit {0}
IsSteady (chunk at bs ∷ later) = (length bs ≡ 1) × IsSteady later
IsSteady (fails at ∷ later) = ⊥

abbrev IsPlain : Pass → Type 0
IsPlain (returns (frame f) r) = Unit {0}
IsPlain (returns too_large r) = Unit {0}
IsPlain (returns terminated r) = ⊥
IsPlain (returns late r) = ⊥
IsPlain (returns failed r) = ⊥
IsPlain (returns panicked r) = ⊥
IsPlain (repeats r) = Unit {0}
IsPlain (reads r) = Unit {0}

-- The input fails no call, and its end comes only after all of it was read.
abbrev pub IsFed : Got × FrameReader × List Arrival → Type 0
IsFed (frame f, r, rest) = Unit {0}
IsFed (too_large, r, rest) = Unit {0}
IsFed (terminated, r, rest) = rest ≡ []
IsFed (late, r, rest) = ⊥
IsFed (failed, r, rest) = ⊥
IsFed (panicked, r, rest) = Unit {0}

pub IsSteady-HasLong : (arrivals : List Arrival) → IsSteady arrivals → HasLong arrivals → ⊥
IsSteady-HasLong [] v h = h
IsSteady-HasLong (chunk at bs ∷ later) v (inl h) = omega (arith, v.0)
IsSteady-HasLong (chunk at bs ∷ later) v (inr h) = IsSteady-HasLong later v.1 h
IsSteady-HasLong (fails at ∷ later) v h = v

module _ (memchr : List ℕ → Option ℕ) where
  iterate-IsPlain : (now : ℕ) (r : FrameReader) → IsPlain (iterate memchr none now r)
  unfolding iterate is_late
  iterate-IsPlain now r = ground arith

  advance-IsPlain : (now : ℕ) (r : FrameReader) → IsPlain (advance memchr none now r)
  unfolding advance
  advance-IsPlain now r =
      (elim (iterate memchr none now r)
          as (λ p.
            IsPlain p
            → IsPlain (elim p [
              | returns g r' ↦ returns g r'
              | repeats r' ↦ iterate memchr none now r'
              | reads r' ↦ reads r'
            ])) [
              | returns g r' ↦ λ v. v
              | repeats r' ↦ λ v. iterate-IsPlain now r'
              | reads r' ↦ λ v. tt
            ])
        (iterate-IsPlain now r)

  after_pass :
      (arrivals : List Arrival) (p : Pass) (goes : FrameReader → Got × FrameReader × List Arrival)
      → IsPlain p
      → ((t : FrameReader) → IsFed (goes t))
      → IsFed (elim p [
        | returns g r' ↦ (g, r', arrivals)
        | repeats r' ↦ (panicked, r', arrivals)
        | reads r' ↦ goes r'
      ])
  after_pass arrivals (returns (frame f) t) goes v k = tt
  after_pass arrivals (returns too_large t) goes v k = tt
  after_pass arrivals (returns late t) goes v k = v
  after_pass arrivals (returns terminated t) goes v k = absurd v
  after_pass arrivals (returns failed t) goes v k = v
  after_pass arrivals (returns panicked t) goes v k = tt
  after_pass arrivals (repeats t) goes v k = tt
  after_pass arrivals (reads t) goes v k = k t

  pub next_frame-IsFed :
      (now : ℕ) (r : FrameReader) (arrivals : List Arrival)
      → IsSteady arrivals
      → IsFed (next_frame memchr none now r arrivals)
  unfolding next_frame
  next_frame-IsFed now r [] v = after_pass [] _ _ (advance-IsPlain now r) (λ t. refl)
  next_frame-IsFed now r (fails at ∷ later) v = absurd v
  next_frame-IsFed now r (chunk at [] ∷ later) v = ground arith
  next_frame-IsFed now r (chunk at (b ∷ bs) ∷ later) v =
      after_pass (chunk at (b ∷ bs) ∷ later) _ _ (advance-IsPlain now r) (λ t.
        elim (Bool-cases (ltb (suc max_frame_size) (length t.buffer + length (b ∷ bs)))) [
          | inl e ↦ rw e tt
          | inr e ↦
              rw e (next_frame-IsFed at (record t { buffer = t.buffer ++ (b ∷ bs) }) later v.1)
        ])
