-- ===== src/Transport/Output.antt =====
-- The output loop of a byte stream: `WriteHalf::write` of src/transport/stream.rs. The turns of the loop are a list: for
-- each, whether the deadline has passed, whether the closer still admits the call, and what the
-- adapter's `write` returns.
use wire_rs.Base.{
  ℕ, ◌≤◌, ◌≡◌, Bool, true, false, not, Option, none, some, List, [], ◌∷◌, ◌++◌, length, take, drop,
  ltb, ◌==◌, if◌then◌else◌,
}
pub mod Prefix

-- `io::ErrorKind`, as far as the loop makes or tests it.
pub data ErrorKind : Type 0 where
  timed_out not_connected write_zero interrupted : ErrorKind
  other_kind : ℕ → ErrorKind

-- What the adapter's `write` returns, and its other calls.
pub data Attempt : Type 0 where
  accepts : ℕ → Attempt
  errs : ErrorKind → Attempt

-- The checks before a call to the adapter.
pub record Turn : Type 0 where
  pub late : Bool
  pub admits : Bool
  pub attempt : Attempt

-- How the write ends: the bytes the adapter took, and the error. A count beyond the slice breaks the
-- adapter's contract; slicing then panics. `blocked` is a turn that has not ended.
pub data Ending : Type 0 where
  done : Ending
  error : ErrorKind → Ending
  panicked blocked : Ending

abbrev check : Turn → Option ErrorKind
check t = if t.late then some timed_out else if t.admits then none else some not_connected

abbrev pub ending : Turn → Ending
ending t = elim (check t) [
  | some e ↦ error e
  | none ↦ elim t.attempt [ accepts n ↦ done | errs e ↦ error e ]
]

-- What one turn of the loop leaves: its end, or the bytes still to write.
pub data Progress : Type 0 where
  stops : Ending → Progress
  goes : ℕ → Progress

abbrev is_interrupted : ErrorKind → Bool
is_interrupted timed_out = false
is_interrupted not_connected = false
is_interrupted write_zero = false
is_interrupted interrupted = true
is_interrupted (other_kind k) = false

-- One turn of the loop, with `n` the bytes that it writes.
unfoldable pub turn : List ℕ → Turn → Progress
turn bytes t = elim (check t) [
  | some e ↦ stops (error e)
  | none ↦ elim t.attempt [
    | accepts n ↦
        if n == 0
        then stops (error write_zero)
        else if ltb (length bytes) n
        then stops panicked
        else goes n
    | errs e ↦ if is_interrupted e then goes 0 else stops (error e)
  ]
]

-- The loop, then the flush, with the bytes that the adapter took.
unfoldable pub write_loop : List ℕ → List Turn → Turn → List ℕ × Ending
unfolding turn
write_loop [] turns flush = ([], ending flush)
write_loop (b ∷ bs) [] flush = ([], blocked)
write_loop (b ∷ bs) (t ∷ turns) flush = elim (turn (b ∷ bs) t) [
  | stops e ↦ ([], e)
  | goes n ↦
      let (taken, e) = write_loop (drop n (b ∷ bs)) turns flush in (take n (b ∷ bs) ++ taken, e)
]

-- `WriteHalf::write`: the deadline is installed first.
unfoldable pub write : List ℕ → Turn → List Turn → Turn → List ℕ × Ending
unfolding write_loop
write bytes setter turns flush = elim (ending setter) [
  | done ↦ write_loop bytes turns flush
  | error e ↦ ([], error e)
  | panicked ↦ ([], panicked)
  | blocked ↦ ([], blocked)
]
