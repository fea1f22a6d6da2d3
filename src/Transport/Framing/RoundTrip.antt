-- ===== src/Transport/Framing/RoundTrip.antt =====
-- Packets from `FrameWriter` to `FrameReader` of src/transport/framing.rs.
use wire_rs.Base.{
  ℕ, ◌≤◌, ◌≡◌, refl, sym, ap, ◌∙◌, Bool, false, Option, none, some, List, [], ◌∷◌, ◌++◌, length,
  arith, append-nil,
}
use wire_rs.Transport.Framing.{
  FrameReader, Arrival, Got, frame, too_large, terminated, late, failed, panicked, new_reader,
  packet, next_packet, unframed, max_frame_size,
}
use wire_rs.Transport.Framing.Splitting.{
  new_reader-IsReader, Token, complete, split, IsMemchr, tokens,
}
use wire_rs.Transport.Framing.Supply.{IsSteady, IsFed, IsSteady-HasLong, next_frame-IsFed}
use wire_rs.Transport.Framing.Delivering.{arriving, Delivers, next_frame-Delivers}
use wire_rs.Transport.Framing.Writer.{
  new_writer, Writing, flushed, broken, sent, send_packet, send_frame,
}
use wire_rs.Transport.Framing.Writer.Recovery.{IsCobs, delimited}

-- What decoding promises for an encoding: it is not empty, and decoding gives the packet back.
pub record IsCodec (encode : List ℕ → List ℕ) (decode_nonzero : List ℕ → Option (List ℕ))
    : Type 0 where
  pub nonempty : (p : List ℕ) → (encode p ≡ []) → ⊥
  pub inverse : (p : List ℕ) → decode_nonzero (encode p) ≡ some p

module _ (memchr : List ℕ → Option ℕ) (encode : List ℕ → List ℕ) (encode_buffer : ℕ → ℕ)
    (decode_nonzero : List ℕ → Option (List ℕ)) where
  sent_wire :
      (bytes : List ℕ) (writing : Writing) (slow : Bool)
      → (send_packet encode encode_buffer bytes writing slow new_writer).1 ≡ sent
      → ((send_packet encode encode_buffer bytes writing slow new_writer).0.wire
          ≡ encode bytes ++ (0 ∷ []))
        × (encode_buffer (length bytes) ≤ max_frame_size)
  unfolding send_packet send_frame
  sent_wire bytes flushed slow s = ground arith
  sent_wire bytes (broken n k) slow s = ground arith

  unframed_frame :
      (body bytes : List ℕ)
      → (body ≡ [] → ⊥)
      → decode_nonzero body ≡ some bytes
      → unframed memchr decode_nonzero (frame body) ≡ packet bytes
  unframed_frame [] bytes n d = absurd (n refl)
  unframed_frame (b ∷ bs) bytes n d = ground (arith, d)

  frame_of_sent :
      (body : List ℕ) (r : FrameReader) (arrivals : List Arrival)
      (g : Got × FrameReader × List Arrival) (ts : List Token)
      → tokens r (arriving arrivals) ≡ (complete body ∷ ts)
      → IsSteady arrivals
      → Delivers r arrivals g
      → IsFed g
      → g.0 ≡ frame body
  frame_of_sent body r arrivals (frame f, r', rest) ts e v d h = ground (arith, e, d.0)
  frame_of_sent body r arrivals (too_large, r', rest) ts e v d h = ground (arith, e, d.0)
  frame_of_sent body r arrivals (terminated, r', rest) ts e v d h =
      (let x : tokens r' (arriving rest) ≡ [] = rw h d.2 in ground (arith, e, d.0, x))
  frame_of_sent body r arrivals (late, r', rest) ts e v d h = absurd h
  frame_of_sent body r arrivals (failed, r', rest) ts e v d h = absurd h
  frame_of_sent body r arrivals (panicked, r', rest) ts e v d h =
      absurd (IsSteady-HasLong arrivals v d)

  -- A packet that a new writer sends successfully, and whose bytes reach a new reader one at a time, is
  -- the packet that the reader's first call yields, if that call has no deadline.
  pub next_packet-send_packet :
      (bytes : List ℕ) (writing : Writing) (slow : Bool) (now : ℕ) (arrivals : List Arrival)
      → IsMemchr memchr
      → IsCobs encode encode_buffer
      → IsCodec encode decode_nonzero
      → (send_packet encode encode_buffer bytes writing slow new_writer).1 ≡ sent
      → arriving arrivals ≡ (send_packet encode encode_buffer bytes writing slow new_writer).0.wire
      → IsSteady arrivals
      → (next_packet memchr decode_nonzero none now new_reader arrivals).0 ≡ packet bytes
  unfolding next_packet
  next_packet-send_packet bytes writing slow now arrivals m c d s a v =
      let (w, l) = sent_wire bytes writing slow s in
      let t : tokens new_reader (arriving arrivals) ≡ (complete (encode bytes) ∷ []) =
        ap (split false []) (a ∙ w ∙ sym (append-nil (encode bytes ++ (0 ∷ []))))
        ∙ delimited (encode bytes) (c.nonzero bytes) (omega (arith, l, c.sized bytes)) [] in
      let g =
        frame_of_sent (encode bytes) new_reader arrivals _ [] t v
          (next_frame-Delivers memchr m none now new_reader arrivals new_reader-IsReader)
          (next_frame-IsFed memchr now new_reader arrivals v) in
      ap (unframed memchr decode_nonzero) g
      ∙ unframed_frame (encode bytes) bytes (d.nonempty bytes) (d.inverse bytes)
