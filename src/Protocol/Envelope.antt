-- ===== src/Protocol/Envelope.antt =====
-- The coding of envelopes: src/protocol/envelope.rs. Messages, their contents and the peer's errors are
-- numbers. The generated schema, with prost's coding of it, is a parameter.
use wire_rs.Base.{
  ℕ, zero, suc, ◌+◌, ◌<◌, ◌≤◌, ◌≡◌, Bool, true, false, ◌||◌, ◌&&◌, Option, none, some, List, [],
  ◌∷◌, length, leb, ltb, if◌then◌else◌,
}
use wire_rs.Protocol.Ids.{Side, peer_of}
use wire_rs.Protocol.Errors.{Error, wrong_direction, malformed, too_large}
use wire_rs.Protocol.Promises.{Header}
use wire_rs.Transport.Outbound.Sealing.{max_message_size}
pub mod Coding

-- `HostToArk`, which a client sends, or `ArkToHost`, which a server sends.
pub record Parts : Type 0 where
  pub id : ℕ
  pub err : Option ℕ
  pub content : Option ℕ

pub data Body : Type 0 where
  message : ℕ → Body
  error : ℕ → Body

pub data Encoded : Type 0 where
  encoded : List ℕ → Encoded
  refused : Error → Encoded

pub data Decoded : Type 0 where
  decoded : ℕ → Body → Decoded
  invalid : Decoded

pub data Read : Type 0 where
  header_of : Header → Read
  refuses : Error → Read

-- What the schema's code does for the envelope of the sending side: the content of a message, `none` for
-- one of the other direction, and back; the size of an encoding, the encoding, and its decoding.
-- `parse_outer` decodes an envelope without its payload, and tells whether there is content that the
-- schema has. `parse_key` reads the tag and the wire type of a field, and `skip_field` its value.
pub record Schema : Type 0 where
  pub content_of : Side → ℕ → Option ℕ
  pub message_of : Side → ℕ → ℕ
  pub encoded_len : Side → Parts → ℕ
  pub encode_to_vec : Side → Parts → List ℕ
  pub parse : Side → List ℕ → Option Parts
  pub parse_outer : Side → List ℕ → Option (ℕ × Bool × Bool)
  pub parse_key : List ℕ → Option (ℕ × ℕ × List ℕ)
  pub skip_field : ℕ → ℕ → List ℕ → Option (List ℕ)

module _ (schema : Schema) (encode_buffer : ℕ → ℕ) where
  open schema use {
    content_of, message_of, encoded_len, encode_to_vec, parse, parse_outer, parse_key, skip_field,
  }

  abbrev pub checked_size : Side → Parts → Encoded
  checked_size side p =
      if ltb (max_message_size encode_buffer) (encoded_len side p)
      then refused (too_large (encoded_len side p))
      else encoded (encode_to_vec side p)

  -- `Side::encode` with the `encode` of its envelope.
  unfoldable pub encode : Side → ℕ → Body → Encoded
  encode side id (error e) = checked_size side (record { id = id; err = some e; content = none })
  encode side id (message m) = elim (content_of side m) [
    | none ↦ refused wrong_direction
    | some c ↦ checked_size side (record { id = id; err = none; content = some c })
  ]

  abbrev one_body : Side → ℕ → Option ℕ → Option ℕ → Decoded
  one_body side id (some c) none = decoded id (message (message_of side c))
  one_body side id none (some e) = decoded id (error e)
  one_body side id (some c) (some e) = invalid
  one_body side id none none = invalid

  -- `Side::decode` with the `decode` of its envelope: the side is the reader's.
  unfoldable pub decode : Side → List ℕ → Decoded
  decode side bytes = elim (parse (peer_of side) bytes) [
    | none ↦ invalid
    | some p ↦ one_body (peer_of side) p.id p.content p.err
  ]

  -- The loop of `decode_header` that looks for a tag of the content range, on fuel.
  unfoldable pub has_content : ℕ → List ℕ → Bool
  has_content zero bytes = false
  has_content (suc fuel) [] = false
  has_content (suc fuel) (b ∷ bytes) = elim (parse_key (b ∷ bytes)) [
    | none ↦ false
    | some (tag, wire_type, rest) ↦ elim (leb 256 tag) [
      | true ↦ true
      | false ↦ elim (skip_field wire_type tag rest) [
        | none ↦ false
        | some rest' ↦ has_content fuel rest'
      ]
    ]
  ]

  abbrev same : Bool → Bool → Bool
  same true b = b
  same false true = false
  same false false = true

  abbrev pub read_header : List ℕ → ℕ × Bool × Bool → Read
  read_header bytes (id, failed, known) =
      let scanned = has_content (suc (length bytes)) bytes in
      let unknown = if known then false else scanned in
      if same (known || unknown) failed
      then refuses malformed
      else header_of (record { id = id; failed = failed; unknown = unknown })

  -- `Side::decode_header`: every pass of its loop takes at least the byte of a key.
  unfoldable pub decode_header : Side → List ℕ → Read
  unfolding has_content
  decode_header side bytes = elim (parse_outer (peer_of side) bytes) [
    | none ↦ refuses malformed
    | some outer ↦ read_header bytes outer
  ]
