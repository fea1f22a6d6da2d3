-- ===== src/Transport/Closer.antt =====
-- The shutdown of a byte stream: `Closer`, `State`, `Phase` and `Activity` of src/transport/stream.rs. Each
-- function is one critical section under the state lock.
use wire_rs.Base.{
  ℕ, zero, suc, ◌+◌, ◌-◌, ◌<◌, ◌≤◌, ◌≡◌, refl, Bool, true, false, Option, none, some, arith, ◌==◌,
  if◌then◌else◌,
}
pub mod Shutdown

pub data Phase : Type 0 where
  open_phase closing closed : Phase

-- `State`: `action` says that the shutdown callback has not been taken.
pub record State : Type 0 where
  pub phase : Phase
  pub active : ℕ
  pub action : Bool

-- `Closer::new`
abbrev pub new_state : State
new_state = record { phase = open_phase; active = 0; action = true }

-- How a pass of a `close` loop ends: with the return of the call, in a wait for `changed`, with the
-- callback taken, or in a panic.
pub data Turn : Type 0 where
  returned waits takes_action panicked : Turn

-- The first critical section of `Closer::close`.
unfoldable pub begin_close : State → State × Turn
begin_close s = elim s.phase [
  | closed ↦ (s, returned)
  | closing ↦ (s, waits)
  | open_phase ↦
      if s.action
      then (record s { phase = closing; action = false }, takes_action)
      else (record s { phase = closing }, panicked)
]

-- The last critical section of `Closer::close`, for the closer that ran the callback.
unfoldable pub finish_close : State → State × Turn
finish_close s = if s.active == 0 then (record s { phase = closed }, returned) else (s, waits)

-- `Closer::enter`
unfoldable pub enter : State → Option State
enter s = elim s.phase [
  | open_phase ↦ some (record s { active = suc s.active })
  | closing ↦ none
  | closed ↦ none
]

-- The `drop` of an `Activity`; `none` is the overflow of the subtraction.
unfoldable pub leave : State → Option State
leave s = if s.active == 0 then none else some (record s { active = s.active - 1 })
