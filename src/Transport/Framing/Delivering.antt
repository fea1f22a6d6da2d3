-- ===== src/Transport/Framing/Delivering.antt =====
-- A call of `next_frame` of src/transport/framing.rs, however its input is cut and timed.
use wire_rs.Base.{
  ℕ, suc, ◌+◌, ◌<◌, ◌≡◌, true, false, Option, List, [], ◌∷◌, ◌++◌, length, ltb, take-append, arith,
  append_assoc, append-nil, length-append, Bool-cases, inl, inr, ◌⊎◌, ap, ◌∙◌, sym,
}
use native.Mathlib.Nat.{sub-zero}
use wire_rs.Transport.Framing.{
  FrameReader, Arrival, chunk, fails, Got, frame, too_large, terminated, late, failed, panicked,
  Pass, returns, repeats, reads, iterate, advance, next_frame, max_frame_size,
}
use wire_rs.Transport.Framing.Splitting.{
  complete, oversized, split, IsZeroFree, IsMemchr, split_skipping, split_within, IsReader, tokens,
}
use wire_rs.Transport.Framing.Passing.{Passes, iterate-Passes}

-- What the iterations up to a read do.
abbrev Advances : FrameReader → List ℕ → Pass → Type 0
Advances r rest (returns g r') = Passes r rest (returns g r')
Advances r rest (repeats r') = ⊥
Advances r rest (reads r') = Passes r rest (reads r')

-- The bytes that arrive.
abbrev pub arriving : List Arrival → List ℕ
arriving [] = []
arriving (chunk at bs ∷ later) = bs ++ arriving later
arriving (fails at ∷ later) = arriving later

-- Some chunk has more than one byte.
abbrev pub HasLong : List Arrival → Type 0
HasLong [] = ⊥
HasLong (chunk at bs ∷ later) = (1 < length bs) ⊎ HasLong later
HasLong (fails at ∷ later) = HasLong later

-- What a call of `next_frame` does to the frames of the stream.
abbrev pub Delivers : FrameReader → List Arrival → Got × FrameReader × List Arrival → Type 0
Delivers r arrivals (frame f, r', rest) =
    (tokens r (arriving arrivals) ≡ (complete f ∷ tokens r' (arriving rest))) × IsReader r'
Delivers r arrivals (too_large, r', rest) =
    (tokens r (arriving arrivals) ≡ (oversized ∷ tokens r' (arriving rest))) × IsReader r'
Delivers r arrivals (terminated, r', rest) =
    (tokens r (arriving arrivals) ≡ tokens r' (arriving rest)) × IsReader r' × (tokens r' [] ≡ [])
Delivers r arrivals (late, r', rest) =
    (tokens r (arriving arrivals) ≡ tokens r' (arriving rest)) × IsReader r'
Delivers r arrivals (failed, r', rest) =
    (tokens r (arriving arrivals) ≡ tokens r' (arriving rest)) × IsReader r'
Delivers r arrivals (panicked, r', rest) = HasLong arrivals

unfinished : (r t : FrameReader) (rest : List ℕ) → Passes r rest (reads t) → tokens t [] ≡ []
unfinished r t rest v =
    rw (v.2, append-nil)
      (elim (Bool-cases t.discard) [
        | inl e ↦ rw e (
            ap (split true []) {x = t.buffer} (sym (append-nil t.buffer))
            ∙ split_skipping t.buffer [] v.5)
        | inr e ↦ rw e (
            ap (split false []) {x = t.buffer} (sym (append-nil t.buffer))
            ∙ split_within [] t.buffer [] v.5 (omega (arith, v.4)))
      ])

supplied :
    (t : FrameReader) (bs rest : List ℕ)
    → IsReader t
    → t.offset ≡ 0
    → t.search ≡ length t.buffer
    → IsZeroFree t.buffer
    → ltb (suc max_frame_size) (length t.buffer + length bs) ≡ false
    → (tokens t (bs ++ rest) ≡ tokens (record t { buffer = t.buffer ++ bs }) rest)
      × IsReader (record t { buffer = t.buffer ++ bs })
supplied t bs rest v o s z h = (
  rw o (ap (split t.discard []) (sym (append_assoc t.buffer bs rest))),
  record {
    order = v.order;
    inside = omega (arith, v.inside, length-append t.buffer bs);
    fits = ground (arith, length-append t.buffer bs);
    scanned = rw (o, s, sub-zero, take-append) z;
    start = v.start;
  },
)

Delivers-later :
    (r t : FrameReader) (at : ℕ) (bs : List ℕ) (later : List Arrival)
    (x : Got × FrameReader × List Arrival)
    → tokens r (bs ++ arriving later) ≡ tokens t (arriving later)
    → Delivers t later x
    → Delivers r (chunk at bs ∷ later) x
Delivers-later r t at bs later (frame f, r', rest) e v = (e ∙ v.0, v.1)
Delivers-later r t at bs later (too_large, r', rest) e v = (e ∙ v.0, v.1)
Delivers-later r t at bs later (terminated, r', rest) e v = (e ∙ v.0, v.1, v.2)
Delivers-later r t at bs later (late, r', rest) e v = (e ∙ v.0, v.1)
Delivers-later r t at bs later (failed, r', rest) e v = (e ∙ v.0, v.1)
Delivers-later r t at bs later (panicked, r', rest) e v = inr v

module _ (memchr : List ℕ → Option ℕ) (finds : IsMemchr memchr) where
  abbrev repeat : Option ℕ → ℕ → Pass → Pass
  repeat deadline now (returns g r) = returns g r
  repeat deadline now (repeats r) = iterate memchr deadline now r
  repeat deadline now (reads r) = reads r

  -- An iteration that ends no discard is the last one.
  settle :
      (r r' : FrameReader) (rest : List ℕ) (p : Pass)
      → tokens r rest ≡ tokens r' rest
      → r'.discard ≡ false
      → Passes r' rest p
      → Advances r rest p
  settle r r' rest (returns (frame f) t) e d v = (e ∙ v.0, v.1)
  settle r r' rest (returns too_large t) e d v = (e ∙ v.0, v.1)
  settle r r' rest (returns late t) e d v = (e ∙ v.0, v.1)
  settle r r' rest (returns terminated t) e d v = v
  settle r r' rest (returns failed t) e d v = v
  settle r r' rest (returns panicked t) e d v = v
  settle r r' rest (repeats t) e d v = ground arith
  settle r r' rest (reads t) e d v = (e ∙ v.0, v.1, v.2, v.3, v.4, v.5)

  repeat-Advances :
      (deadline : Option ℕ) (now : ℕ) (r : FrameReader) (rest : List ℕ) (p : Pass)
      → Passes r rest p
      → Advances r rest (repeat deadline now p)
  repeat-Advances deadline now r rest (returns (frame f) t) v = v
  repeat-Advances deadline now r rest (returns too_large t) v = v
  repeat-Advances deadline now r rest (returns late t) v = v
  repeat-Advances deadline now r rest (returns terminated t) v = v
  repeat-Advances deadline now r rest (returns failed t) v = v
  repeat-Advances deadline now r rest (returns panicked t) v = v
  repeat-Advances deadline now r rest (repeats t) v =
      settle r t rest _ v.0 v.3 (iterate-Passes memchr finds deadline now t rest v.1)
  repeat-Advances deadline now r rest (reads t) v = v

  advance-Advances :
      (deadline : Option ℕ) (now : ℕ) (r : FrameReader) (rest : List ℕ)
      → IsReader r
      → Advances r rest (advance memchr deadline now r)
  unfolding advance
  advance-Advances deadline now r rest v =
      repeat-Advances deadline now r rest _ (iterate-Passes memchr finds deadline now r rest v)

  on_read :
      (r : FrameReader) (arrivals : List Arrival) (p : Pass)
      (goes : FrameReader → Got × FrameReader × List Arrival)
      → Advances r (arriving arrivals) p
      → ((t : FrameReader) → Passes r (arriving arrivals) (reads t) → Delivers r arrivals (goes t))
      → Delivers r arrivals (elim p [
        | returns g r' ↦ (g, r', arrivals)
        | repeats r' ↦ (panicked, r', arrivals)
        | reads r' ↦ goes r'
      ])
  on_read r arrivals (returns (frame f) t) goes v k = v
  on_read r arrivals (returns too_large t) goes v k = v
  on_read r arrivals (returns late t) goes v k = v
  on_read r arrivals (returns terminated t) goes v k = absurd v
  on_read r arrivals (returns failed t) goes v k = absurd v
  on_read r arrivals (returns panicked t) goes v k = absurd v
  on_read r arrivals (repeats t) goes v k = absurd v
  on_read r arrivals (reads t) goes v k = k t v

  -- What a call of `next_frame` does, for a reader in order, whatever its deadline and its input: a
  -- frame that it returns or refuses as too large is the next one of the byte stream, and the stream's
  -- other frames are left for later calls; where it fails, times out or finds the stream's end, no
  -- frame is lost, and at the end none is left whole; it panics only if some chunk has more than one
  -- byte, which may exceed the room offered.
  pub next_frame-Delivers :
      (deadline : Option ℕ) (now : ℕ) (r : FrameReader) (arrivals : List Arrival)
      → IsReader r
      → Delivers r arrivals (next_frame memchr deadline now r arrivals)
  unfolding next_frame
  next_frame-Delivers deadline now r [] v =
      on_read r [] _ _ (advance-Advances deadline now r [] v)
        (λ t w. (w.0, w.1, unfinished r t [] w))
  next_frame-Delivers deadline now r (fails at ∷ later) v =
      on_read r (fails at ∷ later) _ _ (advance-Advances deadline now r _ v) (λ t w. (w.0, w.1))
  next_frame-Delivers deadline now r (chunk at [] ∷ later) v =
      on_read r (chunk at [] ∷ later) _ _ (advance-Advances deadline now r _ v)
        (λ t w. (w.0, w.1, unfinished r t _ w))
  next_frame-Delivers deadline now r (chunk at (b ∷ bs) ∷ later) v =
      on_read r (chunk at (b ∷ bs) ∷ later) _ _ (advance-Advances deadline now r _ v) (λ t w.
        let fit = λ (h : ltb (suc max_frame_size) (length t.buffer + length (b ∷ bs)) ≡ false).
          supplied t (b ∷ bs) (arriving later) w.1 w.2 w.3 w.5 h in
        elim (Bool-cases (ltb (suc max_frame_size) (length t.buffer + length (b ∷ bs)))) [
          | inl e ↦ rw e (inl (ground (arith, w.4)))
          | inr e ↦ rw e (
              let (u, x) = fit e in
              Delivers-later r (record t { buffer = t.buffer ++ (b ∷ bs) }) at (b ∷ bs) later _
                (w.0 ∙ u)
                (next_frame-Delivers deadline at (record t { buffer = t.buffer ++ (b ∷ bs) }) later
                  x))
        ])

  -- Where two deliveries of the same bytes, cut and timed in any way, both yield a frame, it is the
  -- same frame.
  pub next_frame-agree :
      (deadline deadline' : Option ℕ) (now now' : ℕ) (r : FrameReader)
      (arrivals arrivals' : List Arrival) (f f' : List ℕ)
      → IsReader r
      → arriving arrivals ≡ arriving arrivals'
      → (next_frame memchr deadline now r arrivals).0 ≡ frame f
      → (next_frame memchr deadline' now' r arrivals').0 ≡ frame f'
      → f ≡ f'
  next_frame-agree deadline deadline' now now' r arrivals arrivals' f f' v e g g' = ground (
    arith,
    next_frame-Delivers deadline now r arrivals v,
    next_frame-Delivers deadline' now' r arrivals' v,
  )
