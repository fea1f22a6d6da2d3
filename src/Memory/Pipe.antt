-- ===== src/Memory/Pipe.antt =====
-- The `Pipe` of src/memory/mod.rs with the read, write and flush of its two halves.
use wire_rs.Base.{
  ℕ, ◌-◌, ◌<◌, min, Bool, true, false, not, ◌&&◌, ◌||◌, Option, none, some, List, [], ◌∷◌, ◌++◌,
  length, take, drop, leb, ltb, if◌then◌else◌,
}
pub mod Traffic
pub mod Drain

-- `capacity` and the guarded `State`, oldest byte first.
pub record Pipe : Type 0 where
  pub capacity : ℕ
  pub bytes : List ℕ
  pub reader_open : Bool
  pub writer_open : Bool
  pub lost : Bool

pub data IoError : Type 0 where
  timed_out broken_pipe : IoError

-- One pass of a blocking loop: a result, an error, or a wait for a change of the pipe.
pub data Attempt {ℓ} (A : Type ℓ) : Type ℓ where
  ready : A → Attempt A
  fail : IoError → Attempt A
  wait : Attempt A

pub new : ℕ → Pipe
new capacity = record {
  capacity = capacity;
  bytes = [];
  reader_open = true;
  writer_open = true;
  lost = false;
}

abbrev pub is_empty : List ℕ → Bool
is_empty [] = true
is_empty (b ∷ bs) = false

-- Whether `check_deadline` refuses at the clock's time `now`.
unfoldable pub expired : ℕ → Option ℕ → Bool
expired now none = false
expired now (some deadline) = leb deadline now

-- `Reader::read` into a buffer of `len` bytes.
unfoldable pub read : ℕ → Option ℕ → ℕ → Pipe → Attempt (List ℕ) × Pipe
read now deadline len p =
    if leb len 0 || not p.reader_open
    then (ready [], p)
    else if not (is_empty p.bytes)
    then (let count = min len (length p.bytes) in
        (ready (take count p.bytes), record p { bytes = drop count p.bytes }))
    else if not p.writer_open
    then (ready [], p)
    else if expired now deadline
    then (fail timed_out, p)
    else (wait, p)

-- `Writer::write` of the bytes `buf`, which returns how many it accepted.
unfoldable pub write : ℕ → Option ℕ → List ℕ → Pipe → Attempt ℕ × Pipe
write now deadline buf p =
    if expired now deadline
    then (fail timed_out, p)
    else if is_empty buf
    then (ready 0, p)
    else if not p.reader_open || not p.writer_open
    then (fail broken_pipe, p)
    else (let count = min (length buf) (p.capacity - length p.bytes) in
        if ltb 0 count
        then (ready count, record p { bytes = p.bytes ++ take count buf })
        else (wait, p))

-- `Writer::flush`, which changes nothing.
unfoldable pub flush : ℕ → Option ℕ → Pipe → Attempt (Unit {0})
flush now deadline p =
    if expired now deadline
    then fail timed_out
    else if not p.writer_open || p.lost
    then fail broken_pipe
    else ready tt

unfoldable pub close_reader : Pipe → Pipe
close_reader p = record p {
  reader_open = false;
  lost = p.lost || not (is_empty p.bytes);
  bytes = [];
}

unfoldable pub close_writer : Pipe → Pipe
close_writer p = record p { writer_open = false }
