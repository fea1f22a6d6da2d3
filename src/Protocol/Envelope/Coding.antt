-- ===== src/Protocol/Envelope/Coding.antt =====
-- What encoding, decoding and the reading of headers make of each other's results, for
-- src/protocol/envelope.rs.
use wire_rs.Base.{
  ℕ, zero, suc, ◌<◌, ◌≤◌, ◌≡◌, refl, Bool, true, false, ◌||◌, Option, none, some, List, [], ◌∷◌,
  length, leb, arith, Option-cases, inl, inr,
}
use wire_rs.Protocol.Ids.{Side, peer_of, peer_of-peer_of}
use wire_rs.Transport.Outbound.Sealing.{max_message_size}
use wire_rs.Protocol.Envelope.{
  Parts, Body, message, error, encoded, decoded, header_of, Schema, encode, decode, has_content,
  decode_header,
}

abbrev is_present : Option ℕ → Bool
is_present none = false
is_present (some e) = true

abbrev pub is_error : Body → Bool
is_error (message m) = false
is_error (error e) = true

abbrev pub has_high : List ℕ → Bool
has_high [] = false
has_high (tag ∷ tags) = leb 256 tag || has_high tags

-- The bytes are fields with these tags, up to their end or to the first tag of the content range.
pub data Fields (schema : Schema) : List ℕ → List ℕ → Type 0 where
  ends : Fields schema [] []
  reaches :
      {bytes rest : List ℕ} {tag wire_type : ℕ}
      → schema.parse_key bytes ≡ some (tag, wire_type, rest)
      → 256 ≤ tag
      → 0 < length bytes
      → Fields schema bytes (tag ∷ [])
  field :
      {bytes rest rest' tags : List ℕ} {tag wire_type : ℕ}
      → schema.parse_key bytes ≡ some (tag, wire_type, rest)
      → tag < 256
      → schema.skip_field wire_type tag rest ≡ some rest'
      → length rest' < length bytes
      → Fields schema rest' tags
      → Fields schema bytes (tag ∷ tags)

-- What the coding relies on: sizes and round trips of prost, and an envelope without content has no tag
-- of the content range.
pub record IsSchema (schema : Schema) : Type 0 where
  pub sized :
      (side : Side) (p : Parts) → schema.encoded_len side p ≡ length (schema.encode_to_vec side p)
  pub parses : (side : Side) (p : Parts) → schema.parse side (schema.encode_to_vec side p) ≡ some p
  pub parses_outer :
      (side : Side) (p : Parts)
      → schema.parse_outer side (schema.encode_to_vec side p)
        ≡ some (p.id, is_present p.err, is_present p.content)
  pub converts :
      (side : Side) (m c : ℕ) → schema.content_of side m ≡ some c → schema.message_of side c ≡ m
  pub tags :
      (side : Side) (id e : ℕ)
      → (tags : List ℕ) × Fields schema
          (schema.encode_to_vec side (record { id = id; err = some e; content = none }))
          tags
        × (has_high tags ≡ false)

module _ (schema : Schema) (encode_buffer : ℕ → ℕ) where
  -- The scan of a header finds whether any field has a tag of the content range: its fuel is enough.
  pub has_content-Fields :
      (fuel : ℕ) (bytes tags : List ℕ)
      → Fields schema bytes tags
      → length bytes < fuel
      → has_content schema encode_buffer fuel bytes ≡ has_high tags
  unfolding has_content
  has_content-Fields zero bytes tags f l = ground arith
  has_content-Fields (suc fuel) [] tags ends l = refl
  has_content-Fields (suc fuel) [] tags (reaches p h z) l = ground arith
  has_content-Fields (suc fuel) [] tags (field p h k z f) l = ground arith
  has_content-Fields (suc fuel) (b ∷ bytes) tags (reaches p h z) l = ground arith
  has_content-Fields (suc fuel) (b ∷ bytes) tags (field {rest' = rest'} {tags = more} p h k z f) l =
      ground (arith, has_content-Fields fuel rest' more f)

  decode_body-encode :
      (side : Side) (id : ℕ) (body : Body) (bytes : List ℕ)
      → IsSchema schema
      → encode schema encode_buffer side id body ≡ encoded bytes
      → (decode schema encode_buffer (peer_of side) bytes ≡ decoded id body)
        × (length bytes ≤ max_message_size encode_buffer)
  unfolding decode encode
  decode_body-encode side id (error e) bytes v h =
      let p : Parts = record { id = id; err = some e; content = none } in
      rw (peer_of-peer_of side, decode) (ground (arith, v.sized side p, v.parses side p))
  decode_body-encode side id (message m) bytes v h =
      elim (Option-cases (schema.content_of side m)) [
        | inl n ↦ absurd (ground arith)
        | inr (c, n) ↦
            let p : Parts = record { id = id; err = none; content = some c } in
            rw (peer_of-peer_of side, decode)
              (ground (arith, v.sized side p, v.parses side p, v.converts side m c n))
      ]

  decode_header-encode :
      (side : Side) (id : ℕ) (body : Body) (bytes : List ℕ)
      → IsSchema schema
      → encode schema encode_buffer side id body ≡ encoded bytes
      → decode_header schema encode_buffer (peer_of side) bytes
        ≡ header_of (record { id = id; failed = is_error body; unknown = false })
  unfolding decode_header encode
  decode_header-encode side id (error e) bytes v h =
      let p : Parts = record { id = id; err = some e; content = none } in
      let (tags, f, n) = v.tags side id e in
      rw (peer_of-peer_of side, decode_header)
        (ground (
          arith,
          v.sized side p,
          v.parses_outer side p,
          has_content-Fields (suc (length (schema.encode_to_vec side p)))
              (schema.encode_to_vec side p) tags f,
        ))
  decode_header-encode side id (message m) bytes v h =
      elim (Option-cases (schema.content_of side m)) [
        | inl n ↦ absurd (ground arith)
        | inr (c, n) ↦
            let p : Parts = record { id = id; err = none; content = some c } in
            rw (peer_of-peer_of side, decode_header)
              (ground (arith, v.sized side p, v.parses_outer side p))
      ]

  -- A body that one side encodes, the other decodes to the same identifier and body, if the
  -- schema's code is sound. The header that it reads first has this identifier, tells whether the
  -- body is an error, and finds no unknown content. The encoding is not larger than a message may
  -- be.
  pub decode-encode :
      (side : Side) (id : ℕ) (body : Body) (bytes : List ℕ)
      → IsSchema schema
      → encode schema encode_buffer side id body ≡ encoded bytes
      → (decode schema encode_buffer (peer_of side) bytes ≡ decoded id body)
        × (decode_header schema encode_buffer (peer_of side) bytes
            ≡ header_of (record { id = id; failed = is_error body; unknown = false }))
        × (length bytes ≤ max_message_size encode_buffer)
  decode-encode side id body bytes v h =
      let (d, b) = decode_body-encode side id body bytes v h in
      (d, decode_header-encode side id body bytes v h, b)
