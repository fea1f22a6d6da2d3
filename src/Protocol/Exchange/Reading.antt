-- ===== src/Protocol/Exchange/Reading.antt =====
-- What the reader of src/protocol/session.rs makes of bytes that the writer of the other side encoded
-- (src/protocol/envelope.rs).
use wire_rs.Base.{ℕ, ◌≡◌, false, Option, none, some, List, arith}
use wire_rs.Protocol.Ids.{Side, peer_of}
use wire_rs.Protocol.Promises.{Header}
use wire_rs.Protocol.Envelope.{
  Schema, encode, encoded, decode, decoded, decode_header, header_of, message, error,
}
use wire_rs.Protocol.Envelope
use wire_rs.Protocol.Envelope.Coding.{IsSchema, is_error, decode-encode}
use wire_rs.Protocol.Session.{Session, Outgoing, Answer, reply}
use wire_rs.Protocol.Session.Writer.{take_outgoing}
use wire_rs.Protocol.Session.Writer
use wire_rs.Protocol.Session.Incoming
use wire_rs.Protocol.Session.Incoming.{
  route, take_response, complete_response, admit_request, handle_message, read_message,
}
use wire_rs.Protocol.Session.Retrieval.{header_in}

abbrev pub plain_header : ℕ → Envelope.Body → Header
plain_header id body = record { id = id; failed = is_error body; unknown = false }

-- A reply is sent under the id that it answers.
pub replied_id :
    (t : Session) (id n : ℕ) (a : Answer) (m : Outgoing)
    → (take_outgoing t).1 ≡ Writer.message n m
    → m.body ≡ reply id a
    → n ≡ id
unfolding take_outgoing
replied_id t id n a m k b = ground arith

pub read_accepted :
    (decode_header : List ℕ → Option Header) (checked_add : ℕ → ℕ → Option ℕ) (now entry later : ℕ)
    (bytes : List ℕ) (h : Header) (t u : Session)
    → decode_header bytes ≡ some h
    → route now bytes h t ≡ (u, Incoming.accepted none)
    → read_message decode_header checked_add now entry later bytes t ≡ u
unfolding read_message handle_message
read_accepted decode_header checked_add now entry later bytes h t u d r = ground arith

module _ (schema : Schema) (encode_buffer : ℕ → ℕ) where
  pub header_of_encoded :
      (side : Side) (id : ℕ) (body : Envelope.Body) (bytes : List ℕ)
      → IsSchema schema
      → encode schema encode_buffer side id body ≡ encoded bytes
      → header_in schema encode_buffer (peer_of side) bytes ≡ some (plain_header id body)
  header_of_encoded side id body bytes v e =
      ground (arith, decode-encode schema encode_buffer side id body bytes v e)
