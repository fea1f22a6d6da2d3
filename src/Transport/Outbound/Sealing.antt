-- ===== src/Transport/Outbound/Sealing.antt =====
-- The size bounds of src/transport/sealing.rs and src/transport/mod.rs. The cipher is a parameter.
use wire_rs.Base.{
  ℕ, zero, suc, ◌+◌, ◌≤◌, ◌≡◌, ◌≢◌, Bool, true, false, Option, none, some, List, length, ltb,
  if◌then◌else◌, arith, Bool-cases, inl, inr,
}
use wire_rs.Transport.Framing.{max_frame_size}
use wire_rs.Transport.Framing.Writer.{
  FrameWriter, Writing, Sent, sent, send_failed, frame_too_large,
}
use wire_rs.Transport.Framing.Writer
use wire_rs.Transport.Outbound.{Result, ok, err, packet_too_large}

-- `OVERHEAD`
abbrev pub overhead : ℕ
overhead = 16

module _ (encode_buffer : ℕ → ℕ) where
  -- The loop of `MAX_MESSAGE_SIZE`: the first size, from the frame's downwards, whose packet fits.
  unfoldable pub largest_fitting : ℕ → ℕ
  largest_fitting zero = 0
  largest_fitting (suc size) = elim (ltb max_frame_size (encode_buffer (suc size + overhead))) [
    | true ↦ largest_fitting size
    | false ↦ suc size
  ]

  -- `MAX_MESSAGE_SIZE`
  unfoldable pub max_message_size : ℕ
  unfolding largest_fitting
  max_message_size = largest_fitting max_frame_size

  -- `seal`, where `cipher` seals a message under a context's sequence number, and `none` is its own
  -- failure, on which the sender panics.
  unfoldable pub seal : (List ℕ → Option (List ℕ)) → List ℕ → Option (Result (List ℕ))
  seal cipher message =
      if ltb max_message_size (length message)
      then some (err (packet_too_large (length message)))
      else elim (cipher message) [ none ↦ none | some packet ↦ some (ok packet) ]

  largest_fitting-fits :
      (size : ℕ)
      → encode_buffer overhead ≤ max_frame_size
      → encode_buffer (largest_fitting size + overhead) ≤ max_frame_size
  unfolding largest_fitting
  largest_fitting-fits zero z = ground (arith, z)
  largest_fitting-fits (suc size) z =
      elim (Bool-cases (ltb max_frame_size (encode_buffer (suc size + overhead)))) [
        | inl e ↦ rw (e, largest_fitting) (largest_fitting-fits size z)
        | inr e ↦ rw (e, largest_fitting) (ground arith)
      ]

  -- A message that `seal` accepts is never too large for a frame: where sealing adds the overhead and
  -- the size of an encoding grows with its packet, sending what was sealed does not fail for its size.
  pub seal-fits :
      (encode : List ℕ → List ℕ) (cipher : List ℕ → Option (List ℕ)) (message packet : List ℕ)
      (writing : Writing) (late : Bool) (w : FrameWriter) (n : ℕ)
      → encode_buffer overhead ≤ max_frame_size
      → ((a b : ℕ) → a ≤ b → encode_buffer a ≤ encode_buffer b)
      → ((m p : List ℕ) → cipher m ≡ some p → length p ≡ length m + overhead)
      → seal cipher message ≡ some (ok packet)
      → (Writer.send_packet encode encode_buffer packet writing late w).1 ≢ frame_too_large n
  unfolding seal max_message_size Writer.send_packet Writer.send_frame
  seal-fits encode cipher message packet writing late w n z m o e t =
      let b : encode_buffer (largest_fitting max_frame_size + overhead) ≤ max_frame_size =
        largest_fitting-fits max_frame_size z in
      ground (
        arith,
        b,
        t,
        o message packet,
        m (length packet) (largest_fitting max_frame_size + overhead),
      )
