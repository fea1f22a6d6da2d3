-- ===== src/Transport/Agreement.antt =====
-- The handshake between `Client` of src/transport/client.rs and `Server` of src/transport/server.rs:
-- what one side does with the other's messages.
use wire_rs.Base.{
  ℕ, ◌≡◌, true, false, Option, some, List, [], ◌∷◌, ◌++◌, length, arith, Option-cases, inl, inr,
}
use wire_rs.Transport.Framing.{Packet, packet, signal, decoding_failed, stopped, Got}
use wire_rs.Transport.Fault.{done}
use wire_rs.Transport.Handshake.{
  Crypto, Direction, HostHello, ArkHello, ArkHelloAuth, HostAck, HostAckAuth,
}
use wire_rs.Transport.Server.{Offer, answer_hello, accept_ack}
use wire_rs.Transport.Server
use wire_rs.Transport.Client.{
  Client, Draw, ◌>>=◌, is_for, await, await_reply, authenticate, agree, auth_of,
}
use wire_rs.Transport.Client

-- What the handshake relies on: a message opens with the keys that it was sealed for, and a sending
-- context has its receiving counterpart, in the relation `IsPair`.
pub record IsSound (crypto : Crypto) (IsPair : ℕ → ℕ → Type 0) : Type 0 where
  pub opens_hello :
      (hello : ArkHello) (auth : ArkHelloAuth) (signer key time : ℕ) (bytes : List ℕ)
      → crypto.seal_hello hello auth signer (crypto.crypto_public key) time ≡ some bytes
      → (sign1 : List ℕ) × (crypto.recipient bytes
          ≡ some (crypto.fingerprint (crypto.crypto_public key)))
        × (crypto.decrypt_hello bytes auth key ≡ some sign1)
        × (crypto.peek_hello sign1 ≡ some hello)
        × (crypto.verify_hello sign1 auth (crypto.signer_public signer) ≡ some hello)
  pub opens_ack :
      (ack : HostAck) (auth : HostAckAuth) (signer key time : ℕ) (bytes : List ℕ)
      → crypto.seal_ack ack auth signer (crypto.crypto_public key) time ≡ some bytes
      → crypto.open_ack bytes auth key (crypto.signer_public signer) ≡ some ack
  pub pairs :
      (key random sender : ℕ) (direction : Direction) (encap : List ℕ)
      → crypto.new_sender (crypto.crypto_public key) direction random ≡ some (sender, encap)
      → (receiver : ℕ) × (length encap ≡ crypto.encap_size)
        × (crypto.new_receiver key encap direction ≡ some receiver)
        × IsPair sender receiver

module _ (crypto : Crypto) (encode : List ℕ → List ℕ) (encode_buffer : ℕ → ℕ) (Info : Type 0)
    (verifier : List ℕ → ℕ → Option (ℕ × Info)) where
  -- Frames that do not name the key of this attempt.
  abbrev pub AreStale : ℕ → List Packet → Type 0
  AreStale key [] = Unit {0}
  AreStale key (packet bytes ∷ rest) =
      (is_for crypto encode encode_buffer key (crypto.recipient bytes) ≡ false) × AreStale key rest
  AreStale key (signal ∷ rest) =
      (is_for crypto encode encode_buffer key (crypto.recipient []) ≡ false) × AreStale key rest
  AreStale key (decoding_failed ∷ rest) =
      (is_for crypto encode encode_buffer key (crypto.recipient []) ≡ false) × AreStale key rest
  AreStale key (stopped Got.too_large ∷ rest) =
      (is_for crypto encode encode_buffer key (crypto.recipient []) ≡ false) × AreStale key rest
  AreStale key (stopped (Got.frame bs) ∷ rest) = ⊥
  AreStale key (stopped Got.terminated ∷ rest) = ⊥
  AreStale key (stopped Got.late ∷ rest) = ⊥
  AreStale key (stopped Got.failed ∷ rest) = ⊥
  AreStale key (stopped Got.panicked ∷ rest) = ⊥

  pub await-AreStale :
      (key : ℕ) (stale : List Packet) (bytes : List ℕ) (rest : List Packet)
      → AreStale key stale
      → is_for crypto encode encode_buffer key (crypto.recipient bytes) ≡ true
      → await crypto encode encode_buffer key (stale ++ (packet bytes ∷ rest)) ≡ (rest, done bytes)
  unfolding await
  await-AreStale key [] bytes rest s e = ground arith
  await-AreStale key (p ∷ stale) bytes rest s e =
      ground (arith, await-AreStale key stale bytes rest)

  answered :
      (hello : HostHello) (offer : Offer) (signer a : ℕ) (reply : List ℕ)
      → answer_hello crypto encode encode_buffer hello offer signer ≡ some (a, reply)
      → (encap : List ℕ) × (crypto.new_sender hello.host_crypto Direction.ark_to_host offer.random
          ≡ some (a, encap))
        × (crypto.seal_hello
              (Server.hello_of crypto encode encode_buffer offer encap)
              (record { host_signer = hello.host_signer; host_crypto = hello.host_crypto })
              signer
              hello.host_crypto
              offer.time
            ≡ some reply)
  unfolding answer_hello
  answered hello offer signer a reply e =
      elim (Option-cases (crypto.new_sender hello.host_crypto Direction.ark_to_host offer.random)) [
        | inl n ↦ absurd (ground arith)
        | inr ((x, encap), n) ↦ (encap, ground arith, ground arith)
      ]

  agreed_with :
      (draw : Draw) (hello : ArkHello) (identity b r : ℕ) (ack : List ℕ)
      → agree crypto encode encode_buffer draw hello identity ≡ some (b, r, ack)
      → (encap : List ℕ) × (crypto.new_receiver draw.key hello.a2h_encap Direction.ark_to_host
          ≡ some r)
        × (crypto.new_sender hello.ark_crypto Direction.host_to_ark draw.random ≡ some (b, encap))
        × (crypto.seal_ack
              (record { h2a_encap = encap })
              (record { ark_signer = identity; ark_crypto = hello.ark_crypto })
              draw.signer
              hello.ark_crypto
              draw.sign_time
            ≡ some ack)
  unfolding agree
  agreed_with draw hello identity b r ack e =
      elim (Option-cases (crypto.new_sender hello.ark_crypto Direction.host_to_ark draw.random)) [
        | inl n ↦ absurd (ground arith)
        | inr ((x, encap), n) ↦ (encap, ground arith, ground arith, ground arith)
      ]

  -- A handshake of both sides agrees, if the cryptography opens what it seals and pairs its
  -- contexts: where the server answers a client's hello with a reply, and the verifier accepts the
  -- attestation as the server's, the client skips stale frames, takes the reply as authentic, and
  -- obtains the server's identity and the verifier's information; and with the client's
  -- acknowledgement the server accepts. In each direction, the receiving context is then the
  -- counterpart of the sending one.
  pub answer-agrees :
      (IsPair : ℕ → ℕ → Type 0) (draw : Draw) (offer : Offer) (signer a : ℕ) (reply : List ℕ)
      (stale rest : List Packet) (c : Client) (info : Info)
      → IsSound crypto IsPair
      → answer_hello crypto encode encode_buffer
          (Client.hello_of crypto encode encode_buffer draw)
          offer
          signer
        ≡ some (a, reply)
      → crypto.is_attestation offer.attest ≡ true
      → verifier offer.attest draw.verify_time ≡ some (crypto.signer_public signer, info)
      → AreStale draw.key stale
      → c.reads ≡ stale ++ (packet reply ∷ rest)
      → (hello : ArkHello) × ((await_reply crypto encode encode_buffer draw.key
              >>= authenticate crypto encode encode_buffer Info verifier draw)
            c
          ≡ (record c { reads = rest }, done (hello, crypto.signer_public signer, info)))
        × ((b r : ℕ) (ack : List ℕ)
            → agree crypto encode encode_buffer draw hello (crypto.signer_public signer)
              ≡ some (b, r, ack)
            → (s : ℕ) × (accept_ack crypto encode encode_buffer
                  (Client.hello_of crypto encode encode_buffer draw)
                  offer
                  signer
                  ack
                ≡ some s)
              × IsPair a r
              × IsPair b s)
  unfolding answer_hello accept_ack await_reply authenticate agree
  answer-agrees IsPair draw offer signer a reply stale rest c info sound e w v st r =
      let hello_host = Client.hello_of crypto encode encode_buffer draw in
      let (encap, n, q) = answered hello_host offer signer a reply e in
      let hello = Server.hello_of crypto encode encode_buffer offer encap in
      let (sign1, f, d, p, g) =
        sound.opens_hello hello (auth_of crypto encode encode_buffer draw) signer draw.key
          offer.time reply q in
      let (r', l, m, pair) = sound.pairs draw.key offer.random a Direction.ark_to_host encap n in
      (
        hello,
        ground (arith, await-AreStale draw.key stale reply rest st),
        λ b r ack ag.
            let (encap', m', n', q') =
              agreed_with draw hello (crypto.signer_public signer) b r ack ag in
            let (s, l', o, pair') =
              sound.pairs offer.key draw.random b Direction.host_to_ark encap' n' in
            let same : r ≡ r' = ground arith in
            (
              s,
              ground (
                arith,
                sound.opens_ack (record { h2a_encap = encap' })
                    (record {
                      ark_signer = crypto.signer_public signer;
                      ark_crypto = hello.ark_crypto;
                    })
                    draw.signer offer.key draw.sign_time ack q',
              ),
              rw same pair,
              pair',
            ),
      )
