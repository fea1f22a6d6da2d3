-- ===== src/Protocol/Errors.antt =====
-- The errors of src/protocol/error.rs, and of src/transport/mod.rs as far as the protocol tells them
-- apart.
use wire_rs.Base.{ℕ, Bool, true, false}

pub data TransportError : Type 0 where
  session_reset terminated : TransportError
  packet_too_large frame_too_large : ℕ → TransportError
  frame_decoding_failed invalid_attestation : TransportError
  send_failed recv_failed handshake_failed encryption_failed : TransportError

-- `Remote` carries the peer's error code; the texts of messages and type names are left out.
pub data Error : Type 0 where
  closed timeout unexpected_response wrong_direction malformed : Error
  transport : TransportError → Error
  remote : ℕ → Error
  too_large : ℕ → Error
  request_limit_exceeded byte_limit_exceeded : ℕ → Error

-- `Error::orderly`
unfoldable pub is_orderly : Error → Bool
is_orderly closed = true
is_orderly (transport session_reset) = true
is_orderly (transport terminated) = true
is_orderly _ = false
