-- ===== src/Transport/Input.antt =====
-- The input loop of a byte stream: `ReadHalf::read` of src/transport/stream.rs. The turns of the loop are
-- a list: for each, whether the deadline has passed, whether the closer still admits the call, and what
-- the adapter's deadline setter and its `read` return.
use wire_rs.Base.{ℕ, Bool, true, false, Option, none, some, List, [], ◌∷◌, if◌then◌else◌}
use wire_rs.Transport.Output.{
  ErrorKind, timed_out, not_connected, write_zero, interrupted, other_kind,
}
pub mod Intake

pub data Attempt : Type 0 where
  gives : List ℕ → Attempt
  errs : ErrorKind → Attempt

pub record Turn : Type 0 where
  pub late : Bool
  pub admits : Bool
  pub setter : Option ErrorKind
  pub attempt : Attempt

-- How a read ends; `blocked` is a loop whose next turn has not ended.
pub data Ending : Type 0 where
  received : List ℕ → Ending
  error : ErrorKind → Ending
  blocked : Ending

pub data Progress : Type 0 where
  stops : Ending → Progress
  retries : Progress

abbrev is_retried : ErrorKind → Bool
is_retried timed_out = true
is_retried interrupted = true
is_retried not_connected = false
is_retried write_zero = false
is_retried (other_kind k) = false

abbrev after_attempt : Attempt → Progress
after_attempt (gives bytes) = stops (received bytes)
after_attempt (errs e) = if is_retried e then retries else stops (error e)

abbrev after_setter : Option ErrorKind → Attempt → Progress
after_setter (some e) a = stops (error e)
after_setter none a = after_attempt a

-- One turn of the loop. A closed stream ends.
unfoldable pub turn : Turn → Progress
turn t =
    if t.late
    then stops (error timed_out)
    else if t.admits
    then after_setter t.setter t.attempt
    else stops (received [])

-- `ReadHalf::read`, with the turns that it leaves.
unfoldable pub read : List Turn → Ending × List Turn
unfolding turn
read [] = (blocked, [])
read (t ∷ turns) = elim (turn t) [ stops e ↦ (e, turns) | retries ↦ read turns ]
