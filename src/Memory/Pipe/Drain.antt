-- ===== src/Memory/Pipe/Drain.antt =====
-- Reading a pipe to its end after the writer closed.
use wire_rs.Base.{
  ℕ, zero, suc, ◌<◌, min, ◌≡◌, true, false, Option, none, some, List, [], ◌∷◌, ◌++◌, length, drop,
  arith, take-append-drop, length-drop, length-take,
}
use wire_rs.Memory.Pipe.{Pipe, Attempt, ready, fail, wait, read}

-- Adds what one read returned to what `rest` reads from the pipe that it left.
abbrev then_rest : Attempt (List ℕ) × Pipe → (Pipe → Option (List ℕ)) → Option (List ℕ)
then_rest (ready [], p) rest = some []
then_rest (ready (b ∷ bs), p) rest = elim (rest p) [
  | none ↦ none
  | some more ↦ some ((b ∷ bs) ++ more)
]
then_rest (fail e, p) rest = none
then_rest (wait, p) rest = none

-- Reads of `len` bytes each, until one returns nothing; `none` if one fails or would wait.
pub read_to_end : ℕ → ℕ → Option ℕ → ℕ → Pipe → Option (List ℕ)
read_to_end zero now deadline len p = none
read_to_end (suc fuel) now deadline len p =
    then_rest (read now deadline len p) (λ q. read_to_end fuel now deadline len q)

-- Once the writer has closed, an open reader reads exactly the buffered bytes in order and then the
-- end, whatever its deadline and its nonempty buffer, in at most one read more than there are bytes.
pub read_to_end-eq-bytes :
    (fuel now : ℕ) (deadline : Option ℕ) (len : ℕ) (p : Pipe)
    → 0 < len
    → p.reader_open ≡ true
    → p.writer_open ≡ false
    → length p.bytes < fuel
    → read_to_end fuel now deadline len p ≡ some p.bytes
unfolding read_to_end read
read_to_end-eq-bytes zero now deadline len p hl hr hw hf = absurd (omega arith)
read_to_end-eq-bytes (suc fuel) now deadline len p hl hr hw hf = ground (
  arith,
  read_to_end-eq-bytes fuel now deadline len
      (record p { bytes = drop (min len (length p.bytes)) p.bytes }) hl hr hw,
  take-append-drop (min len (length p.bytes)) p.bytes,
  length-drop (min len (length p.bytes)) p.bytes,
  length-take (min len (length p.bytes)) p.bytes,
)
