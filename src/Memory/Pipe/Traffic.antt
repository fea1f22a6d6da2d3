-- ===== src/Memory/Pipe/Traffic.antt =====
-- A history of calls on one pipe, and what becomes of every byte that it accepted.
use wire_rs.Base.{
  ℕ, ◌-◌, ◌≤◌, min, ◌≡◌, true, false, Option, List, [], ◌∷◌, ◌++◌, length, take, drop, arith,
  append-nil, append_assoc, take-append-drop, length-append, length-take, length-drop,
}
use wire_rs.Memory.Pipe.{
  Pipe, Attempt, ready, fail, wait, new, is_empty, read, write, close_reader, close_writer,
}

-- A call with the clock's time and the deadline under which it was made.
pub data Call : Type 0 where
  reads : ℕ → Option ℕ → ℕ → Call
  writes : ℕ → Option ℕ → List ℕ → Call
  closes_reader closes_writer : Call

-- The pipe with every byte that writes accepted, that reads delivered, and that closing dropped.
pub record Traffic : Type 0 where
  pub pipe : Pipe
  pub accepted : List ℕ
  pub delivered : List ℕ
  pub dropped : List ℕ

abbrev pub start : ℕ → Traffic
start capacity = record { pipe = new capacity; accepted = []; delivered = []; dropped = [] }

abbrev after_read : Traffic → Attempt (List ℕ) × Pipe → Traffic
after_read t (ready bytes, p) = record t { pipe = p; delivered = t.delivered ++ bytes }
after_read t (fail e, p) = record t { pipe = p }
after_read t (wait, p) = record t { pipe = p }

abbrev after_write : Traffic → List ℕ → Attempt ℕ × Pipe → Traffic
after_write t buf (ready n, p) = record t { pipe = p; accepted = t.accepted ++ take n buf }
after_write t buf (fail e, p) = record t { pipe = p }
after_write t buf (wait, p) = record t { pipe = p }

pub step : Traffic → Call → Traffic
step t (reads now deadline len) = after_read t (read now deadline len t.pipe)
step t (writes now deadline buf) = after_write t buf (write now deadline buf t.pipe)
step t closes_reader = record t { pipe = close_reader t.pipe; dropped = t.dropped ++ t.pipe.bytes }
step t closes_writer = record t { pipe = close_writer t.pipe }

pub run : Traffic → List Call → Traffic
run t [] = t
run t (c ∷ cs) = run (step t c) cs

-- Nothing is lost, reordered or made up, and the buffer stays within its capacity.
pub record IsAccounted (t : Traffic) : Type 0 where
  pub fifo : t.accepted ≡ t.delivered ++ (t.dropped ++ t.pipe.bytes)
  pub bounded : length t.pipe.bytes ≤ t.pipe.capacity
  pub open_keeps : t.pipe.reader_open ≡ true → t.dropped ≡ []
  pub closed_empty : t.pipe.reader_open ≡ false → t.pipe.bytes ≡ []
  pub lost_iff : t.pipe.lost ≡ false → t.dropped ≡ []
  pub lost_real : t.pipe.lost ≡ true → is_empty t.dropped ≡ false

step-IsAccounted : (t : Traffic) (c : Call) → IsAccounted t → IsAccounted (step t c)
unfolding step read write close_reader close_writer
step-IsAccounted t (reads now deadline len) v = ground (
  arith,
  append-nil t.delivered,
  take-append-drop (min len (length t.pipe.bytes)) t.pipe.bytes,
  append_assoc t.delivered (take (min len (length t.pipe.bytes)) t.pipe.bytes)
      (drop (min len (length t.pipe.bytes)) t.pipe.bytes),
  length-drop (min len (length t.pipe.bytes)) t.pipe.bytes,
)
step-IsAccounted t (writes now deadline buf) v = ground (
  arith,
  append-nil t.accepted,
  length-append t.pipe.bytes (take n buf),
  length-take n buf,
  append_assoc t.delivered t.pipe.bytes (take n buf),
)
  where
    n : ℕ
    n = min (length buf) (t.pipe.capacity - length t.pipe.bytes)
step-IsAccounted t closes_reader v = ground (arith, append-nil t.pipe.bytes, append-nil t.dropped)
step-IsAccounted t closes_writer v = ground arith

run-IsAccounted : (t : Traffic) (cs : List Call) → IsAccounted t → IsAccounted (run t cs)
unfolding run
run-IsAccounted t [] v = v
run-IsAccounted t (c ∷ cs) v = run-IsAccounted (step t c) cs (step-IsAccounted t c v)

start-IsAccounted : (capacity : ℕ) → IsAccounted (start capacity)
unfolding new
start-IsAccounted capacity = ground arith

-- After any calls on a new pipe, the accepted bytes are those delivered, then those that closing the
-- reader dropped, then those still buffered, in that order; at most `capacity` bytes are buffered;
-- bytes are dropped only once the reader is closed, when none stay buffered; and the pipe is marked
-- lost exactly when some were dropped.
pub run-start-IsAccounted : (capacity : ℕ) (cs : List Call) → IsAccounted (run (start capacity) cs)
run-start-IsAccounted capacity cs = run-IsAccounted _ cs (start-IsAccounted capacity)
