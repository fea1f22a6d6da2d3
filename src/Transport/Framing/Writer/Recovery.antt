-- ===== src/Transport/Framing/Writer/Recovery.antt =====
-- Frames after failed sends: `FrameWriter` of src/transport/framing.rs.
use wire_rs.Base.{
  ℕ, zero, suc, ◌≤◌, ◌≡◌, Bool, true, false, List, [], ◌∷◌, ◌++◌, length, take, ltb, arith,
  append_assoc, append-nil, ap, subst, sym, ◌∙◌, Bool-cases, inl, inr, length-take, take_of_append,
  take-nil, ◌-◌,
}
use wire_rs.Transport.Framing.{max_frame_size}
use wire_rs.Transport.Framing.Splitting.{
  Token, complete, split, IsZeroFree, IsZeroFree-take, split_within,
}
use wire_rs.Transport.Framing.Writer.{
  FrameWriter, Writing, flushed, broken, sent, framed, prefix, send_frame, send_reset, send_packet,
}

-- Bytes after which a reader starts a new frame, with the frames that they hold.
abbrev pub Ends : List ℕ → List Token → Type 0
Ends bs ts = (rest : List ℕ) → split false [] (bs ++ rest) ≡ ts ++ split false [] rest

abbrev pub AtBoundary : List ℕ → Type 0
AtBoundary bs = (ts : List Token) × Ends bs ts

-- Unless a recovery delimiter is due, the bytes taken end at a boundary; one more delimiter always
-- ends at one.
pub record IsWriter (w : FrameWriter) : Type 0 where
  pub clean : w.resync ≡ false → AtBoundary w.wire
  pub recovers : AtBoundary (w.wire ++ (0 ∷ []))

-- What `cobs` promises: an encoding has no zero, and it fits the size that is computed for it.
pub record IsCobs (encode : List ℕ → List ℕ) (encode_buffer : ℕ → ℕ) : Type 0 where
  pub nonzero : (p : List ℕ) → IsZeroFree (encode p)
  pub sized : (p : List ℕ) → length (encode p) ≤ encode_buffer (length p)

Ends-append :
    (xs ys : List ℕ) (ts us : List Token) → Ends xs ts → Ends ys us → Ends (xs ++ ys) (ts ++ us)
Ends-append xs ys ts us v w rest =
    ap (split false []) (append_assoc xs ys rest)
    ∙ v (ys ++ rest)
    ∙ ap (ts ++◌) (w rest)
    ∙ sym (append_assoc ts us (split false [] rest))

AtBoundary-append : (xs ys : List ℕ) → AtBoundary xs → AtBoundary ys → AtBoundary (xs ++ ys)
AtBoundary-append xs ys (ts, v) (us, w) = (ts ++ us, Ends-append xs ys ts us v w)

pub delimited :
    (xs : List ℕ)
    → IsZeroFree xs
    → length xs ≤ max_frame_size
    → Ends (xs ++ (0 ∷ [])) (complete xs ∷ [])
delimited xs z l rest =
    ap (split false []) (append_assoc xs (0 ∷ []) rest)
    ∙ split_within [] xs (0 ∷ rest) z (omega arith)

zero-AtBoundary : AtBoundary (0 ∷ [])
zero-AtBoundary = (complete [] ∷ [], delimited [] tt (omega arith))

take-AtBoundary :
    (xs : List ℕ) (n : ℕ)
    → IsZeroFree xs
    → length xs ≤ max_frame_size
    → AtBoundary (take n xs ++ (0 ∷ []))
take-AtBoundary xs n z l = (
  complete (take n xs) ∷ [],
  delimited (take n xs) (IsZeroFree-take n xs z) (omega (arith, length-take n xs)),
)

prefix-AtBoundary :
    (xs : List ℕ) (n m : ℕ)
    → IsZeroFree xs
    → length xs ≤ max_frame_size
    → AtBoundary ((take n xs ++ take m (0 ∷ [])) ++ (0 ∷ []))
prefix-AtBoundary xs n zero z l = rw append-nil (take-AtBoundary xs n z l)
prefix-AtBoundary xs n (suc m) z l =
    rw (take-nil m) (
      AtBoundary-append (take n xs ++ (0 ∷ [])) (0 ∷ []) (take-AtBoundary xs n z l) zero-AtBoundary)

cut-AtBoundary :
    (body : List ℕ) (writing : Writing)
    → IsZeroFree body
    → length body ≤ max_frame_size
    → AtBoundary (prefix writing (body ++ (0 ∷ [])) ++ (0 ∷ []))
cut-AtBoundary body flushed z l =
    AtBoundary-append (body ++ (0 ∷ [])) (0 ∷ []) (complete body ∷ [], delimited body z l)
      zero-AtBoundary
cut-AtBoundary body (broken n k) z l =
    subst (λ t. AtBoundary (t ++ (0 ∷ []))) (sym (take_of_append n body (0 ∷ [])))
      (prefix-AtBoundary body n (n - length body) z l)

-- Any part of a frame that follows a boundary is ended by one more delimiter.
written-AtBoundary :
    (start body : List ℕ) (writing : Writing)
    → IsZeroFree body
    → length body ≤ max_frame_size
    → AtBoundary start
    → AtBoundary ((start ++ prefix writing (body ++ (0 ∷ []))) ++ (0 ∷ []))
written-AtBoundary start body writing z l v =
    subst AtBoundary (sym (append_assoc start (prefix writing (body ++ (0 ∷ []))) (0 ∷ [])))
      (AtBoundary-append start _ v (cut-AtBoundary body writing z l))

-- With the recovery delimiter first.
resynced-AtBoundary :
    (start body : List ℕ) (writing : Writing)
    → IsZeroFree body
    → length body ≤ max_frame_size
    → AtBoundary (start ++ (0 ∷ []))
    → AtBoundary ((start ++ prefix writing (framed true body)) ++ (0 ∷ []))
resynced-AtBoundary start body flushed z l v =
    subst (λ t. AtBoundary (t ++ (0 ∷ []))) (append_assoc start (0 ∷ []) (body ++ (0 ∷ [])))
      (written-AtBoundary (start ++ (0 ∷ [])) body flushed z l v)
resynced-AtBoundary start body (broken zero k) z l v = rw append-nil v
resynced-AtBoundary start body (broken (suc n) k) z l v =
    subst (λ t. AtBoundary (t ++ (0 ∷ [])))
      (append_assoc start (0 ∷ []) (take n (body ++ (0 ∷ []))))
      (written-AtBoundary (start ++ (0 ∷ [])) body (broken n k) z l v)

-- Where the bytes taken end after a send, as far as a frame has been taken whole.
Ends-framed :
    (w : FrameWriter) (body : List ℕ)
    → IsZeroFree body
    → length body ≤ max_frame_size
    → IsWriter w
    → (ts : List Token) × Ends (w.wire ++ framed w.resync body) (ts ++ (complete body ∷ []))
Ends-framed w body z l v = elim (Bool-cases w.resync) [
  | inl e ↦ rw e (
      let (ts, u) = v.recovers in
      (
        ts,
        subst (λ t. Ends t (ts ++ (complete body ∷ [])))
            (append_assoc w.wire (0 ∷ []) (body ++ (0 ∷ [])))
            (Ends-append (w.wire ++ (0 ∷ [])) (body ++ (0 ∷ [])) ts _ u (delimited body z l)),
      ))
  | inr e ↦ rw e (
      let (ts, u) = v.clean e in
      (ts, Ends-append w.wire (body ++ (0 ∷ [])) ts _ u (delimited body z l)))
]

send_frame-recovers :
    (body : List ℕ) (writing : Writing) (late : Bool) (w : FrameWriter)
    → IsZeroFree body
    → length body ≤ max_frame_size
    → IsWriter w
    → AtBoundary ((w.wire ++ prefix writing (framed w.resync body)) ++ (0 ∷ []))
send_frame-recovers body writing late w z l v = elim (Bool-cases w.resync) [
  | inl e ↦ rw e (resynced-AtBoundary w.wire body writing z l v.recovers)
  | inr e ↦ rw e (written-AtBoundary w.wire body writing z l (v.clean e))
]

pub send_frame-IsWriter :
    (body : List ℕ) (writing : Writing) (late : Bool) (w : FrameWriter)
    → IsZeroFree body
    → length body ≤ max_frame_size
    → IsWriter w
    → IsWriter (send_frame body writing late w).0
unfolding send_frame
send_frame-IsWriter body flushed late w z l v =
    let (ts, u) = Ends-framed w body z l v in
    record {
      clean = λ e. (ts ++ (complete body ∷ []), u);
      recovers = send_frame-recovers body flushed late w z l v;
    }
send_frame-IsWriter body (broken n k) late w z l v = record {
  clean = ground arith;
  recovers = send_frame-recovers body (broken n k) late w z l v;
}

-- Whatever failed before, a packet that is sent successfully reaches the peer as one frame: the bytes
-- taken split into some frames, then the packet's encoding, and then the frames of what follows.
pub send_packet-delivers :
    (encode : List ℕ → List ℕ) (encode_buffer : ℕ → ℕ) (packet : List ℕ) (writing : Writing)
    (late : Bool) (w : FrameWriter)
    → IsCobs encode encode_buffer
    → IsWriter w
    → (send_packet encode encode_buffer packet writing late w).1 ≡ sent
    → (ts : List Token) × Ends
        (send_packet encode encode_buffer packet writing late w).0.wire
        (ts ++ (complete (encode packet) ∷ []))
unfolding send_packet send_frame
send_packet-delivers encode encode_buffer packet flushed late w c v e =
    elim (Bool-cases (ltb max_frame_size (encode_buffer (length packet)))) [
      | inl f ↦ ground arith
      | inr f ↦
          rw f (Ends-framed w (encode packet) (c.nonzero packet) (ground (arith, c.sized packet)) v)
    ]
send_packet-delivers encode encode_buffer packet (broken n k) late w c v e = ground arith

-- Every send of a packet, whatever its fate, leaves the stream recoverable: one more delimiter ends what
-- was taken at the boundary of a frame, and unless a recovery delimiter is due it ends at one already.
pub send_packet-IsWriter :
    (encode : List ℕ → List ℕ) (encode_buffer : ℕ → ℕ) (packet : List ℕ) (writing : Writing)
    (late : Bool) (w : FrameWriter)
    → IsCobs encode encode_buffer
    → IsWriter w
    → IsWriter (send_packet encode encode_buffer packet writing late w).0
unfolding send_packet
send_packet-IsWriter encode encode_buffer packet writing late w c v =
    elim (Bool-cases (ltb max_frame_size (encode_buffer (length packet)))) [
      | inl e ↦ rw e v
      | inr e ↦ rw e (
          send_frame-IsWriter (encode packet) writing late w (c.nonzero packet)
            (ground (arith, c.sized packet)) v)
    ]

Ends-reset :
    (w : FrameWriter)
    → IsWriter w
    → (ts : List Token) × Ends (w.wire ++ (0 ∷ 0 ∷ [])) (ts ++ (complete [] ∷ []))
Ends-reset w v =
    let (ts, u) = v.recovers in
    (
      ts,
      subst (λ t. Ends t (ts ++ (complete [] ∷ []))) (append_assoc w.wire (0 ∷ []) (0 ∷ []))
          (Ends-append (w.wire ++ (0 ∷ [])) (0 ∷ []) ts _ u (delimited [] tt (omega arith))),
    )

reset-AtBoundary :
    (writing : Writing) (w : FrameWriter)
    → IsWriter w
    → AtBoundary ((w.wire ++ prefix writing (0 ∷ 0 ∷ [])) ++ (0 ∷ []))
reset-AtBoundary flushed w v =
    let (ts, u) = Ends-reset w v in
    AtBoundary-append (w.wire ++ (0 ∷ 0 ∷ [])) (0 ∷ []) (_, u) zero-AtBoundary
reset-AtBoundary (broken zero k) w v = rw append-nil v.recovers
reset-AtBoundary (broken (suc zero) k) w v =
    AtBoundary-append (w.wire ++ (0 ∷ [])) (0 ∷ []) v.recovers zero-AtBoundary
reset-AtBoundary (broken (suc (suc n)) k) w v = rw (take-nil n) (
    let (ts, u) = Ends-reset w v in
    AtBoundary-append (w.wire ++ (0 ∷ 0 ∷ [])) (0 ∷ []) (_, u) zero-AtBoundary)

-- Every reset, whatever its fate, leaves the stream recoverable: one more delimiter ends what was taken
-- at the boundary of a frame, and unless a recovery delimiter is due it ends at one already.
pub send_reset-IsWriter :
    (writing : Writing) (late : Bool) (w : FrameWriter)
    → IsWriter w
    → IsWriter (send_reset writing late w).0
unfolding send_reset send_frame
send_reset-IsWriter flushed late w v = record {
  clean = λ e. (_, (Ends-reset w v).1);
  recovers = reset-AtBoundary flushed w v;
}
send_reset-IsWriter (broken n k) late w v = record {
  clean = ground arith;
  recovers = reset-AtBoundary (broken n k) w v;
}

-- A reset that is sent successfully reaches the peer as an empty frame at the end of what it has
-- received, whatever failed before.
pub send_reset-delivers :
    (writing : Writing) (late : Bool) (w : FrameWriter)
    → IsWriter w
    → (send_reset writing late w).1 ≡ sent
    → (ts : List Token) × Ends (send_reset writing late w).0.wire (ts ++ (complete [] ∷ []))
unfolding send_reset send_frame
send_reset-delivers flushed late w v e = Ends-reset w v
send_reset-delivers (broken n k) late w v e = ground arith
