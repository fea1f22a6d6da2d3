-- ===== src/Transport/Stream.antt =====
-- The owner of a byte stream: `Stream` of src/transport/stream.rs. A clock is a number that tells it from
-- others, and a duration is a number of milliseconds.
use wire_rs.Base.{ℕ, ◌≡◌, Option, none, some, arith, ◌==◌, if◌then◌else◌}
use wire_rs.Transport.Closer.{State, closing, new_state, begin_close}

-- `DEFAULT_WRITE_TIMEOUT`
abbrev pub default_write_timeout : ℕ
default_write_timeout = 5000

-- The adapters, until they pass to the transport.
pub record Stream (R W : Type 0) : Type 0 where
  pub clock : ℕ
  pub io : Option (R × W)
  pub closer : State
  pub timeout : ℕ

module _ {R W : Type 0} where
  -- `Stream::new`, of adapters that report these clocks; `none` is the panic on different ones.
  unfoldable pub new_stream : R → ℕ → W → ℕ → Option (Stream R W)
  new_stream reader clock writer other =
      if clock == other
      then some (record {
        clock = clock;
        io = some (reader, writer);
        closer = new_state;
        timeout = default_write_timeout;
      })
      else none

  -- `Stream::set_write_timeout`
  unfoldable pub set_write_timeout : ℕ → Stream R W → Stream R W
  set_write_timeout timeout s = record s { timeout = timeout }

  -- The `drop` of a stream, which begins a close only while it has its adapters.
  unfoldable pub drop_stream : Stream R W → State
  unfolding begin_close
  drop_stream s = elim s.io [ none ↦ s.closer | some io ↦ (begin_close s.closer).0 ]

  -- What `Stream::into_parts` hands over, and the state of the stream after the drop of what is left;
  -- `none` is its panic.
  unfoldable pub into_parts : Stream R W → Option ((R × W × ℕ) × State)
  unfolding drop_stream
  into_parts s = elim s.io [
    | none ↦ none
    | some io ↦ some ((io.0, io.1, s.timeout), drop_stream (record s { io = none }))
  ]

  -- A new stream, whatever its write timeout, is handed over once and open, with its adapters and this
  -- timeout; one that is dropped instead is closing.
  new_stream-into_parts :
      (reader : R) (writer : W) (clock timeout : ℕ) (s : Stream R W)
      → new_stream reader clock writer clock ≡ some s
      → (into_parts (set_write_timeout timeout s) ≡ some ((reader, writer, timeout), new_state))
        × ((drop_stream (set_write_timeout timeout s)).phase ≡ closing)
  unfolding new_stream into_parts set_write_timeout drop_stream begin_close
  new_stream-into_parts reader writer clock timeout s e = ground arith
