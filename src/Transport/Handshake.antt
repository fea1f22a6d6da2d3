-- ===== src/Transport/Handshake.antt =====
-- The messages of the handshake, src/transport/handshake.rs, and the cryptography that both sides call:
-- parameters, whose keys, fingerprints and encryption contexts are numbers. The random choices of a
-- call are a number of its own.
use wire_rs.Base.{ℕ, Bool, Option, List}

pub record HostHello : Type 0 where
  pub host_signer : ℕ
  pub host_crypto : ℕ

pub record ArkHello : Type 0 where
  pub ark_attest : List ℕ
  pub ark_crypto : ℕ
  pub a2h_encap : List ℕ

pub record ArkHelloAuth : Type 0 where
  pub host_signer : ℕ
  pub host_crypto : ℕ

pub record HostAck : Type 0 where
  pub h2a_encap : List ℕ

pub record HostAckAuth : Type 0 where
  pub ark_signer : ℕ
  pub ark_crypto : ℕ

-- `CRYPTO_DOMAIN_WIRE_ARK_TO_HOST` and `CRYPTO_DOMAIN_WIRE_HOST_TO_ARK`
pub data Direction : Type 0 where
  ark_to_host host_to_ark : Direction

-- What the two sides call of xdsa, xhpke, cbor, cose and cwt; `none` is a call's error. A seal takes the
-- message, its authenticated data, the signer, the recipient and the time.
pub record Crypto : Type 0 where
  pub signer_public : ℕ → ℕ
  pub crypto_public : ℕ → ℕ
  pub fingerprint : ℕ → ℕ
  pub encap_size : ℕ
  pub new_sender : ℕ → Direction → ℕ → Option (ℕ × List ℕ)
  pub new_receiver : ℕ → List ℕ → Direction → Option ℕ
  pub encode_hello : HostHello → Option (List ℕ)
  pub decode_hello : List ℕ → Option HostHello
  pub seal_hello : ArkHello → ArkHelloAuth → ℕ → ℕ → ℕ → Option (List ℕ)
  pub recipient : List ℕ → Option ℕ
  pub decrypt_hello : List ℕ → ArkHelloAuth → ℕ → Option (List ℕ)
  pub peek_hello : List ℕ → Option ArkHello
  pub verify_hello : List ℕ → ArkHelloAuth → ℕ → Option ArkHello
  pub seal_ack : HostAck → HostAckAuth → ℕ → ℕ → ℕ → Option (List ℕ)
  pub open_ack : List ℕ → HostAckAuth → ℕ → ℕ → Option HostAck
  pub is_attestation : List ℕ → Bool
