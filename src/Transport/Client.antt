-- ===== src/Transport/Client.antt =====
-- The client of the transport: `Client` of src/transport/client.rs. What its frame reader returns from
-- one call to the next is a list, and so are the outcomes of its outputs: the send of a packet takes
-- two of them, the second for the notice of its failure. Deadlines show in the results of reads and
-- outputs.
use wire_rs.Base.{
  ℕ, zero, suc, ◌+◌, Bool, true, false, Option, none, some, List, [], ◌∷◌, length, ◌==◌,
  if◌then◌else◌,
}
use wire_rs.Transport.Framing.{Packet, packet, signal, decoding_failed, stopped, Got}
use wire_rs.Transport.Outbound.{
  Outbound, Output, Result, ok, err, Refusal, refused, client, new_outbound, finish_receive,
  Interference,
}
use wire_rs.Transport.Outbound
use wire_rs.Transport.Fault.{
  Fault, frame_decoding_failed, handshake_failed, invalid_attestation, encryption_failed,
  session_reset, panicked, blocked, sent_fault, stop_fault, next_output, Attempt, done, failed,
  or_fail,
}
use wire_rs.Transport.Handshake.{
  HostHello, ArkHello, ArkHelloAuth, HostAck, HostAckAuth, Crypto, ark_to_host, host_to_ark,
}
pub mod Sessions

pub record Client : Type 0 where
  pub outbound : Outbound
  pub receiver : Option ℕ
  pub sealer : Option ℕ
  pub contexts : ℕ
  pub reads : List Packet
  pub outputs : List Output

-- `Client::new`
abbrev pub new_client : List Packet → List Output → Client
new_client reads outputs = record {
  outbound = new_outbound client;
  receiver = none;
  sealer = none;
  contexts = 0;
  reads = reads;
  outputs = outputs;
}

-- What an attempt to connect draws: its ephemeral keys, the randomness of the encapsulation, and the
-- times at which the attestation is verified and the acknowledgement signed.
pub record Draw : Type 0 where
  pub signer : ℕ
  pub key : ℕ
  pub random : ℕ
  pub verify_time : ℕ
  pub sign_time : ℕ

-- A call of the client: what it leaves, and how it ends.
abbrev pub Call : Type 0 → Type 0
Call A = Client → Client × Attempt A

abbrev continued : {A B : Type 0} → Client × Attempt A → (A → Call B) → Client × Attempt B
continued (c, done a) f = f a c
continued (c, failed e) f = (c, failed e)

infixl 5 ◌>>=◌ ◌>>◌
abbrev pub ◌>>=◌ : {A B : Type 0} → Call A → (A → Call B) → Call B
◌>>=◌ m f c = continued (m c) f

abbrev pub ◌>>◌ : {A B : Type 0} → Call A → Call B → Call B
◌>>◌ m n = m >>= (λ a. n)

abbrev pub give : {A : Type 0} → Attempt A → Call A
give a c = (c, a)

abbrev end_outbound : Option ℕ → Outbound → Outbound
end_outbound none o = o
end_outbound (some d) o = (Outbound.end d o).0

-- `Client::end_session`
unfoldable pub end_session : Client → Client
end_session c = record c {
  outbound = end_outbound c.sealer c.outbound;
  receiver = none;
  sealer = none;
}

-- The body of `Drop::drop` but the shutdown is `end_session`; `Client::new_session` stores the receive
-- context and a new allocation for the sending one.
unfoldable pub new_session : ℕ → Call ℕ
new_session receiver c = (
  record c {
    outbound = Outbound.bind c.contexts c.outbound;
    receiver = some receiver;
    sealer = some c.contexts;
    contexts = suc c.contexts;
  },
  done c.contexts,
)

abbrev output_ended : Client → Outbound × Result (Unit {0}) → Client × Attempt (Unit {0})
output_ended c (o, ok a) = (record c { outbound = o }, done tt)
output_ended c (o, err r) = (record c { outbound = o }, failed (sent_fault r))

-- The contexts are let go, and the reset removes their binding before it is written.
unfoldable pub reset : Call (Unit {0})
reset c =
    let (out, outs) = next_output c.outputs in
    output_ended (record c { receiver = none; sealer = none; outputs = outs })
      (Outbound.send_reset out c.outbound)

abbrev read_ended : Client → Fault → Client × Attempt (List ℕ)
read_ended c f = (end_session c, failed f)

abbrev message_of : Client → Result (List ℕ) → Client × Attempt (List ℕ)
message_of c (ok bytes) = (c, done bytes)
message_of c (err r) = (end_session c, failed (sent_fault r))

abbrev met : (Outbound → Outbound) → Client → Client
met f c = record c { outbound = f c.outbound }

abbrev pub met_after : {A : Type 0} → (Outbound → Outbound) → Client × A → Client × A
met_after f (c, a) = (met f c, a)

-- `others` is what other threads do to the outbound side meanwhile.
module _ (unseal : ℕ → List ℕ → Option (List ℕ × ℕ)) (others : Interference) where
  abbrev open_packet : List ℕ → ℕ → Option ℕ → Client → Client × Attempt (List ℕ)
  open_packet bytes receiver none c = (c, failed panicked)
  open_packet bytes receiver (some d) c = elim (unseal receiver bytes) [
    | none ↦ message_of c (finish_receive d (err refused) c.outbound)
    | some (plain, receiver') ↦
        message_of (record c { receiver = some receiver' }) (finish_receive d (ok plain) c.outbound)
  ]

  abbrev pub on_packet : Packet → ℕ → Client → Client × Attempt (List ℕ)
  on_packet (packet bytes) receiver c = open_packet bytes receiver c.sealer c
  on_packet signal receiver c = read_ended c session_reset
  on_packet decoding_failed receiver c = read_ended c frame_decoding_failed
  on_packet (stopped g) receiver c = read_ended c (stop_fault g)

  abbrev pub on_read : List Packet → ℕ → Client → Client × Attempt (List ℕ)
  on_read [] receiver c = (met (others.during 0) c, failed blocked)
  on_read (p ∷ rest) receiver c =
      met_after (others.after (length rest))
        (on_packet p receiver (met (others.during (length rest)) (record c { reads = rest })))

  abbrev pub recv_with : Option ℕ → Client → Client × Attempt (List ℕ)
  recv_with none c = (c, failed encryption_failed)
  recv_with (some receiver) c = on_read c.reads receiver c

  -- `Client::recv`
  unfoldable pub recv : Call (List ℕ)
  unfolding end_session
  recv c = recv_with c.receiver c

module _ (crypto : Crypto) (encode : List ℕ → List ℕ) (encode_buffer : ℕ → ℕ) where
  open crypto use {
    signer_public, crypto_public, fingerprint, encap_size, new_sender, new_receiver, encode_hello,
    recipient, decrypt_hello, peek_hello, verify_hello, seal_ack, is_attestation,
  }

  abbrev pub hello_of : Draw → HostHello
  hello_of draw = record {
    host_signer = signer_public draw.signer;
    host_crypto = crypto_public draw.key;
  }

  abbrev pub auth_of : Draw → ArkHelloAuth
  auth_of draw = record {
    host_signer = signer_public draw.signer;
    host_crypto = crypto_public draw.key;
  }

  -- A call of `Outbound::send_packet`
  unfoldable pub post : List ℕ → Call (Unit {0})
  post bytes c =
      let (out, outs) = next_output c.outputs in
      let (again, outs') = next_output outs in
      output_ended (record c { outputs = outs' })
        (Outbound.send_packet encode encode_buffer bytes out again c.outbound)

  abbrev encoded : Option (List ℕ) → Call (List ℕ)
  encoded none c = (end_session c, failed handshake_failed)
  encoded (some hello) c = (c, done hello)

  abbrev pub is_for : ℕ → Option ℕ → Bool
  is_for key none = false
  is_for key (some k) = k == fingerprint (crypto_public key)

  -- The loop of the handshake that skips what does not name the key: notifications and frames that do
  -- not decode count as an empty packet.
  unfoldable pub await : ℕ → List Packet → List Packet × Attempt (List ℕ)
  await key [] = ([], failed blocked)
  await key (packet bytes ∷ rest) =
      let more = await key rest in if is_for key (recipient bytes) then (rest, done bytes) else more
  await key (signal ∷ rest) =
      let more = await key rest in if is_for key (recipient []) then (rest, done []) else more
  await key (decoding_failed ∷ rest) =
      let more = await key rest in if is_for key (recipient []) then (rest, done []) else more
  await key (stopped Got.too_large ∷ rest) =
      let more = await key rest in if is_for key (recipient []) then (rest, done []) else more
  await key (stopped (Got.frame bs) ∷ rest) = (rest, failed panicked)
  await key (stopped Got.terminated ∷ rest) = (rest, failed (stop_fault Got.terminated))
  await key (stopped Got.late ∷ rest) = (rest, failed (stop_fault Got.late))
  await key (stopped Got.failed ∷ rest) = (rest, failed (stop_fault Got.failed))
  await key (stopped Got.panicked ∷ rest) = (rest, failed panicked)

  abbrev awaited : Client → List Packet × Attempt (List ℕ) → Client × Attempt (List ℕ)
  awaited c (rest, a) = (record c { reads = rest }, a)

  unfoldable pub await_reply : ℕ → Call (List ℕ)
  unfolding await
  await_reply key c = awaited c (await key c.reads)

  -- The contexts of both directions, sending first, and the sealed acknowledgement.
  unfoldable pub agree : Draw → ArkHello → ℕ → Option (ℕ × ℕ × List ℕ)
  agree draw hello identity =
      if length hello.a2h_encap == encap_size
      then elim (new_receiver draw.key hello.a2h_encap ark_to_host) [
        | none ↦ none
        | some receiver ↦ elim (new_sender hello.ark_crypto host_to_ark draw.random) [
          | none ↦ none
          | some (sender, encap) ↦
              elim (seal_ack (record { h2a_encap = encap })
                (record { ark_signer = identity; ark_crypto = hello.ark_crypto }) draw.signer
                hello.ark_crypto draw.sign_time) [
                  | none ↦ none
                  | some ack ↦ some (sender, receiver, ack)
                ]
        ]
      ]
      else none

  module _ (Info : Type 0) (verifier : List ℕ → ℕ → Option (ℕ × Info)) where
    -- The reply's sender: its hello, its identity, and what the verifier extracts.
    unfoldable pub authenticate : Draw → List ℕ → Call (ArkHello × ℕ × Info)
    authenticate draw bytes = do
      sign1 ← give (or_fail handshake_failed (decrypt_hello bytes (auth_of draw) draw.key))
      unverified ← give (or_fail handshake_failed (peek_hello sign1))
      attestation ← give (
          if is_attestation unverified.ark_attest
          then done unverified.ark_attest
          else failed invalid_attestation)
      accepted ← give (or_fail handshake_failed (verifier attestation draw.verify_time))
      hello ← give (or_fail handshake_failed (verify_hello sign1 (auth_of draw) accepted.0))
      give (done (hello, accepted.0, accepted.1))

    -- `Client::handshake`, which `Client::connect` calls with the keys that it draws.
    unfoldable pub connect : Draw → Call (ℕ × Info)
    unfolding reset post await_reply authenticate agree new_session end_session
    connect draw = do
      hello ← encoded (encode_hello (hello_of draw))
      reset
      post hello
      bytes ← await_reply draw.key
      reply ← authenticate draw bytes
      agreed ← give (or_fail handshake_failed (agree draw reply.0 reply.1))
      post agreed.2
      sender ← new_session agreed.1
      give (done (sender, reply.2))
