-- ===== src/Transport/Framing.antt =====
-- The reader of frames: `FrameReader` of src/transport/framing.rs. A byte is a number. The buffer is the list of
-- its first `filled` bytes; the array behind it has `max_frame_size + 1` bytes. The adapter's reads are
-- a list of arrivals, each with the clock's reading when it returns; a chunk longer than the room that
-- it was offered breaks the adapter's contract, and slicing the buffer then panics.
use wire_rs.Base.{
  ℕ, suc, ◌+◌, ◌-◌, ◌*◌, ◌<◌, ◌≤◌, ◌≡◌, Bool, true, false, Option, none, some, List, [], ◌∷◌, ◌++◌,
  length, take, drop, get_elem?, leb, ltb, ◌==◌, if◌then◌else◌,
}
pub mod Splitting
pub mod Passing
pub mod Delivering
pub mod Supply
pub mod RoundTrip
pub mod Writer

-- `MAX_FRAME_SIZE`
unfoldable pub max_frame_size : ℕ
max_frame_size = 2 * 1024 * 1024

pub record FrameReader : Type 0 where
  pub buffer : List ℕ
  pub offset : ℕ
  pub search : ℕ
  pub discard : Bool

-- `FrameReader::new`
abbrev pub new_reader : FrameReader
new_reader = record { buffer = []; offset = 0; search = 0; discard = false }

-- What the reading half returns: no bytes at the end of the stream or after it is closed.
pub data Arrival : Type 0 where
  chunk : ℕ → List ℕ → Arrival
  fails : ℕ → Arrival

-- `check_deadline` of src/transport/io.rs, for the optional deadline of a handshake.
unfoldable pub is_late : Option ℕ → ℕ → Bool
is_late none now = false
is_late (some deadline) now = leb deadline now

-- How a call of `next_frame` ends; `late` and `failed` are its `RecvFailed`.
pub data Got : Type 0 where
  frame : List ℕ → Got
  too_large terminated late failed panicked : Got

-- How one iteration of the loop of `next_frame` ends: with its result, at the end of a discarded frame, or
-- where it reads.
pub data Pass : Type 0 where
  returns : Got → FrameReader → Pass
  repeats reads : FrameReader → Pass

-- The partial frame moves to the start; what is discarded is forgotten.
abbrev pub compact : FrameReader → FrameReader
compact r = if r.discard then record r { buffer = []; offset = 0; search = 0 } else record r {
  buffer = drop r.offset r.buffer;
  offset = 0;
  search = length (drop r.offset r.buffer);
}

abbrev pub check_full : FrameReader → Pass
check_full r =
    if length r.buffer == suc max_frame_size
    then returns too_large (record { buffer = []; offset = 0; search = 0; discard = true })
    else reads r

abbrev pub found_at : FrameReader → ℕ → Pass
found_at r end =
    let next : FrameReader = record r { offset = suc end; search = suc end } in
    if r.discard
    then repeats (record next { discard = false })
    else returns (frame (take (end - r.offset) (drop r.offset r.buffer))) next

-- `memchr` finds the first zero.
module _ (memchr : List ℕ → Option ℕ) where
  -- One iteration, up to its read.
  unfoldable pub iterate : Option ℕ → ℕ → FrameReader → Pass
  unfolding is_late
  iterate deadline now r =
      if is_late deadline now then returns late r else elim (memchr (drop r.search r.buffer)) [
        | some n ↦ found_at r (r.search + n)
        | none ↦ check_full (compact r)
      ]

  -- The iterations up to a read: one that ends a discard, then one that does not, at the same reading
  -- of the clock.
  unfoldable pub advance : Option ℕ → ℕ → FrameReader → Pass
  unfolding iterate
  advance deadline now r = elim (iterate deadline now r) [
    | returns g r' ↦ returns g r'
    | repeats r' ↦ iterate deadline now r'
    | reads r' ↦ reads r'
  ]

  -- `FrameReader::next_frame`, with the arrivals that it leaves.
  unfoldable pub next_frame :
      Option ℕ → ℕ → FrameReader → List Arrival → Got × FrameReader × List Arrival
  unfolding advance
  next_frame deadline now r [] = elim (advance deadline now r) [
    | returns g r' ↦ (g, r', [])
    | repeats r' ↦ (panicked, r', [])
    | reads r' ↦ (terminated, r', [])
  ]
  next_frame deadline now r (fails at ∷ later) = elim (advance deadline now r) [
    | returns g r' ↦ (g, r', fails at ∷ later)
    | repeats r' ↦ (panicked, r', fails at ∷ later)
    | reads r' ↦ (failed, r', later)
  ]
  next_frame deadline now r (chunk at [] ∷ later) = elim (advance deadline now r) [
    | returns g r' ↦ (g, r', chunk at [] ∷ later)
    | repeats r' ↦ (panicked, r', chunk at [] ∷ later)
    | reads r' ↦ (terminated, r', later)
  ]
  next_frame deadline now r (chunk at (b ∷ bs) ∷ later) = elim (advance deadline now r) [
    | returns g r' ↦ (g, r', chunk at (b ∷ bs) ∷ later)
    | repeats r' ↦ (panicked, r', chunk at (b ∷ bs) ∷ later)
    | reads r' ↦ elim (ltb (suc max_frame_size) (length r'.buffer + length (b ∷ bs))) [
      | true ↦ (panicked, r', later)
      | false ↦ next_frame deadline at (record r' { buffer = r'.buffer ++ (b ∷ bs) }) later
    ]
  ]

-- How a call of `next_packet` ends; `stopped` is an error of `next_frame`.
pub data Packet : Type 0 where
  packet : List ℕ → Packet
  signal decoding_failed : Packet
  stopped : Got → Packet

-- `cobs::decode_nonzero` decodes a frame without zeros, `none` where it refuses it.
module _ (memchr : List ℕ → Option ℕ) (decode_nonzero : List ℕ → Option (List ℕ)) where
  abbrev decoded : Option (List ℕ) → Packet
  decoded none = decoding_failed
  decoded (some bytes) = packet bytes

  abbrev pub unframed : Got → Packet
  unframed (frame []) = signal
  unframed (frame (b ∷ bs)) = decoded (decode_nonzero (b ∷ bs))
  unframed too_large = stopped too_large
  unframed terminated = stopped terminated
  unframed late = stopped late
  unframed failed = stopped failed
  unframed panicked = stopped panicked

  -- `FrameReader::next_packet`
  unfoldable pub next_packet :
      Option ℕ → ℕ → FrameReader → List Arrival → Packet × FrameReader × List Arrival
  unfolding next_frame
  next_packet deadline now r arrivals =
      let (g, r', rest) = next_frame memchr deadline now r arrivals in (unframed g, r', rest)
