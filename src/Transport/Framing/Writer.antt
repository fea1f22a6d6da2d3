-- ===== src/Transport/Framing/Writer.antt =====
-- The writer of frames: `FrameWriter` of src/transport/framing.rs, with the bytes that the adapter has taken.
-- `cobs::encode` and `cobs::encode_buffer` are parameters.
use wire_rs.Base.{
  ℕ, suc, ◌≤◌, ◌≡◌, Bool, true, false, ◌||◌, Option, none, some, List, [], ◌∷◌, ◌++◌, length, take,
  ltb, if◌then◌else◌,
}
use wire_rs.Transport.Output.{ErrorKind, timed_out}
use wire_rs.Transport.Framing.{max_frame_size}
pub mod Recovery

pub record FrameWriter : Type 0 where
  pub resync : Bool
  pub wire : List ℕ

-- `FrameWriter::new`, with nothing taken.
abbrev pub new_writer : FrameWriter
new_writer = record { resync = false; wire = [] }

-- How `WriteHalf::write` ends: the adapter takes and flushes everything, or fails after a prefix.
pub data Writing : Type 0 where
  flushed : Writing
  broken : ℕ → ErrorKind → Writing

pub data Sent : Type 0 where
  sent : Sent
  send_failed : ErrorKind → Sent
  frame_too_large : ℕ → Sent

abbrev pub prefix : Writing → List ℕ → List ℕ
prefix flushed bs = bs
prefix (broken n e) bs = take n bs

abbrev is_broken : Writing → Bool
is_broken flushed = false
is_broken (broken n e) = true

abbrev outcome : Writing → Sent
outcome flushed = sent
outcome (broken n e) = send_failed e

-- The bytes of `frame[start..size + 2]`.
abbrev pub framed : Bool → List ℕ → List ℕ
framed true body = 0 ∷ body ++ (0 ∷ [])
framed false body = body ++ (0 ∷ [])

-- `FrameWriter::send_frame`, where `late` says that the deadline has passed when the write returns.
unfoldable pub send_frame : List ℕ → Writing → Bool → FrameWriter → FrameWriter × Sent
send_frame body writing late w = (
  record {
    resync = late || is_broken writing;
    wire = w.wire ++ prefix writing (framed w.resync body);
  },
  if late then send_failed timed_out else outcome writing,
)

-- `FrameWriter::send_reset`
unfoldable pub send_reset : Writing → Bool → FrameWriter → FrameWriter × Sent
unfolding send_frame
send_reset writing late w = send_frame (0 ∷ []) writing late (record w { resync = false })

-- `FrameWriter::send_dropped`
unfoldable pub send_dropped : Writing → Bool → FrameWriter → FrameWriter × Sent
unfolding send_frame
send_dropped writing late w = send_frame [] writing late w

module _ (encode : List ℕ → List ℕ) (encode_buffer : ℕ → ℕ) where
  -- `FrameWriter::send_packet`
  unfoldable pub send_packet : List ℕ → Writing → Bool → FrameWriter → FrameWriter × Sent
  unfolding send_frame
  send_packet packet writing late w =
      if ltb max_frame_size (encode_buffer (length packet))
      then (w, frame_too_large (encode_buffer (length packet)))
      else send_frame (encode packet) writing late w
