-- ===== src/Transport/Tests.antt =====
-- Runs of the transport: frames that are sent and read, writes in parts and a shutdown.
use wire_rs.Base.{
  ap, ◌-◌, ℕ, zero, suc, ◌+◌, ◌≤◌, ◌≡◌, refl, true, false, Option, none, some, List, [], ◌∷◌, ◌++◌,
  take, length, get_elem?, arith, ◌==◌, if◌then◌else◌,
}
use wire_rs.Transport.Framing.RoundTrip.{IsCodec, next_packet-send_packet}
use wire_rs.Transport.Framing.{
  next_packet, packet, Arrival, chunk, next_frame, new_reader, max_frame_size,
}
use wire_rs.Transport.Framing.Splitting.{new_reader-IsReader, IsZeroFree, IsMemchr, Token, complete}
use wire_rs.Transport.Framing.Delivering.{Delivers, next_frame-Delivers, next_frame-agree}
use wire_rs.Transport.Framing.Writer.{
  FrameWriter, new_writer, flushed, broken, send_packet, send_reset,
}
use wire_rs.Transport.Framing.Writer.Recovery.{
  IsWriter, IsCobs, Ends, send_packet-IsWriter, send_packet-delivers, send_reset-delivers,
}
use wire_rs.Transport.Closer.{new_state, begin_close, finish_close, enter, leave, returned}
use wire_rs.Transport.Closer.Shutdown.{
  Threads, start, begins, runs, finishes, enters, leaves, Reach, here, next, close-returned,
  close-progress,
}
use wire_rs.Transport.Input
use wire_rs.Transport.Input.Intake.{handed_over, bytes_of, read-handed_over}
use wire_rs.Transport.Output.{interrupted, Turn, accepts, write, done}

-- A search for the first zero.
abbrev next_zero : Option ℕ → Option ℕ
next_zero none = none
next_zero (some n) = some (suc n)

abbrev find_zero : List ℕ → Option ℕ
find_zero [] = none
find_zero (b ∷ bs) = if b == 0 then some 0 else next_zero (find_zero bs)

find_zero-absent : (xs : List ℕ) → find_zero xs ≡ none → IsZeroFree xs
find_zero-absent [] h = tt
find_zero-absent (x ∷ xs) h = ground (arith, find_zero-absent xs)

find_zero-present :
    (xs : List ℕ) (n : ℕ)
    → find_zero xs ≡ some n
    → IsZeroFree (take n xs) × (get_elem? xs n ≡ some 0)
find_zero-present [] n h = ground arith
find_zero-present (x ∷ xs) zero h = ground arith
find_zero-present (x ∷ xs) (suc n) h = ground (arith, find_zero-present xs n)

find_zero-IsMemchr : IsMemchr find_zero
find_zero-IsMemchr = record { absent = find_zero-absent; present = find_zero-present }

abbrev whole : List Arrival
whole = chunk 1 (5 ∷ 6 ∷ 0 ∷ 7 ∷ []) ∷ []

abbrev parts : List Arrival
parts = chunk 1 (5 ∷ []) ∷ chunk 2 (6 ∷ 0 ∷ 7 ∷ []) ∷ []

next_frame-Delivers_example :
    Delivers new_reader parts (next_frame find_zero (some 9) 0 new_reader parts)
next_frame-Delivers_example =
    next_frame-Delivers find_zero find_zero-IsMemchr (some 9) 0 new_reader parts new_reader-IsReader

abbrev first_frame : List ℕ
first_frame = 5 ∷ 6 ∷ []

next_frame-agree_example : first_frame ≡ first_frame
unfolding next_frame max_frame_size
next_frame-agree_example =
    next_frame-agree find_zero find_zero-IsMemchr (some 9) none 0 0 new_reader whole parts
      first_frame first_frame new_reader-IsReader refl refl refl

-- An encoding without zeros, one byte longer than the packet.
abbrev raise_all : List ℕ → List ℕ
raise_all [] = []
raise_all (b ∷ bs) = suc b ∷ raise_all bs

abbrev lower_all : List ℕ → List ℕ
lower_all [] = []
lower_all (b ∷ bs) = (b - 1) ∷ lower_all bs

abbrev shift : List ℕ → List ℕ
shift bs = 1 ∷ raise_all bs

abbrev unshift : List ℕ → Option (List ℕ)
unshift [] = none
unshift (b ∷ bs) = some (lower_all bs)

abbrev shifted_size : ℕ → ℕ
shifted_size n = suc n

raise_all-IsZeroFree : (bs : List ℕ) → IsZeroFree (raise_all bs)
raise_all-IsZeroFree [] = tt
raise_all-IsZeroFree (b ∷ bs) = (omega arith, raise_all-IsZeroFree bs)

length-raise_all : (bs : List ℕ) → length (shift bs) ≤ shifted_size (length bs)
length-raise_all [] = omega arith
length-raise_all (b ∷ bs) = omega (arith, length-raise_all bs)

lower_all-raise_all : (bs : List ℕ) → lower_all (raise_all bs) ≡ bs
lower_all-raise_all [] = refl
lower_all-raise_all (b ∷ bs) = grind (arith, lower_all-raise_all bs)

shift-IsCodec : IsCodec shift unshift
shift-IsCodec = record {
  nonempty = λ p e. ground arith;
  inverse = λ p. ap some (lower_all-raise_all p);
}

shift-IsCobs : IsCobs shift shifted_size
shift-IsCobs = record {
  nonzero = λ p. (omega arith, raise_all-IsZeroFree p);
  sized = length-raise_all;
}

new_writer-IsWriter : IsWriter new_writer
new_writer-IsWriter = record {
  clean = λ e. ([], λ rest. refl);
  recovers = (complete [] ∷ [], λ rest. refl);
}

-- A packet that breaks off after its first byte.
abbrev broken_off : FrameWriter
broken_off = (send_packet shift shifted_size (4 ∷ 5 ∷ []) (broken 1 interrupted) false new_writer).0

broken_off-IsWriter : IsWriter broken_off
broken_off-IsWriter =
    send_packet-IsWriter shift shifted_size (4 ∷ 5 ∷ []) (broken 1 interrupted) false new_writer
      shift-IsCobs new_writer-IsWriter

send_packet-IsWriter_example :
    IsWriter (send_packet shift shifted_size (8 ∷ []) flushed false broken_off).0
send_packet-IsWriter_example =
    send_packet-IsWriter shift shifted_size (8 ∷ []) flushed false broken_off shift-IsCobs
      broken_off-IsWriter

abbrev bytewise : List Arrival
bytewise = chunk 1 (1 ∷ []) ∷ chunk 2 (5 ∷ []) ∷ chunk 3 (0 ∷ []) ∷ []

next_packet-send_packet_example :
    (next_packet find_zero unshift none 0 new_reader bytewise).0 ≡ packet (4 ∷ [])
unfolding send_packet max_frame_size
next_packet-send_packet_example =
    next_packet-send_packet find_zero shift shifted_size unshift (4 ∷ []) flushed false 0 bytewise
      find_zero-IsMemchr shift-IsCobs shift-IsCodec refl refl (refl, (refl, (refl, tt)))

send_packet-delivers_example :
    (ts : List Token) × Ends
      (send_packet shift shifted_size (8 ∷ []) flushed false broken_off).0.wire
      (ts ++ (complete (1 ∷ 9 ∷ []) ∷ []))
unfolding send_packet max_frame_size
send_packet-delivers_example =
    send_packet-delivers shift shifted_size (8 ∷ []) flushed false broken_off shift-IsCobs
      broken_off-IsWriter refl

send_reset-delivers_example :
    (ts : List Token) × Ends (send_reset flushed false broken_off).0.wire (ts ++ (complete [] ∷ []))
unfolding send_reset
send_reset-delivers_example = send_reset-delivers flushed false broken_off broken_off-IsWriter refl

-- A read that is admitted, a close that begins and runs the callback, the read's end and the close's.
abbrev reading : Threads
reading = record start { state = record new_state { active = 1 }; admitted = 1 }

reading-Reach : Reach reading
unfolding enter
reading-Reach = next here (enters (record new_state { active = 1 }) refl)

abbrev beginning : Threads
beginning = record reading { state = (begin_close reading.state).0; running = 1 }

beginning-Reach : Reach beginning
unfolding begin_close
beginning-Reach = next reading-Reach (begins refl)

abbrev draining_read : Threads
draining_read = record beginning { running = 0; draining = 1; shutdowns = 1 }

draining_read-Reach : Reach draining_read
draining_read-Reach = next beginning-Reach (runs 0 refl)

abbrev drained : Threads
drained = record draining_read { state = record draining_read.state { active = 0 }; admitted = 0 }

drained-Reach : Reach drained
unfolding begin_close leave
drained-Reach =
    next draining_read-Reach (leaves 0 (record draining_read.state { active = 0 }) refl refl)

abbrev finished : Threads
finished = record drained { state = (finish_close drained.state).0; draining = 0 }

finished-Reach : Reach finished
unfolding finish_close
finished-Reach = next drained-Reach (finishes 0 refl refl)

close-returned_example :
    (finished.shutdowns ≡ 1) × (finished.admitted ≡ 0) × (finished.running + finished.draining ≡ 0)
unfolding begin_close finish_close
close-returned_example = close-returned finished finished-Reach refl

close-progress_example : (drained.draining ≡ 1) × ((finish_close drained.state).1 ≡ returned)
unfolding begin_close
close-progress_example = close-progress drained drained-Reach refl refl refl

abbrev taking : ℕ → Turn
taking n = record { late = false; admits = true; attempt = accepts n }

-- A write in two parts takes everything.
write_in_parts :
    write (1 ∷ 2 ∷ 3 ∷ []) (taking 0) (taking 2 ∷ taking 1 ∷ []) (taking 0) ≡ (1 ∷ 2 ∷ 3 ∷ [], done)
unfolding write
write_in_parts = refl

-- An interrupted read, then one that gives two bytes, and one that is left.
abbrev reading_turns : List Input.Turn
reading_turns =
    record { late = false; admits = true; setter = none; attempt = Input.errs interrupted }
    ∷ record { late = false; admits = true; setter = none; attempt = Input.gives (4 ∷ 5 ∷ []) }
    ∷ record { late = false; admits = true; setter = none; attempt = Input.gives (6 ∷ []) }
    ∷ []

read-handed_over_example :
    handed_over reading_turns
    ≡ bytes_of (Input.read reading_turns).0 ++ handed_over (Input.read reading_turns).1
read-handed_over_example = read-handed_over reading_turns
