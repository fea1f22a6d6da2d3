-- ===== src/Transport/SessionTests.antt =====
-- Runs of the transport's senders, handshake, server and client, with concrete cryptography.
use wire_rs.Base.{
  ℕ, suc, ◌+◌, ◌<◌, ◌≡◌, ◌≢◌, refl, true, false, Option, none, some, List, [], ◌∷◌, arith, ◌==◌,
  ◌&&◌, if◌then◌else◌,
}
use wire_rs.Transport.Framing.{packet, signal, max_frame_size}
use wire_rs.Transport.Framing.Writer.{new_writer, flushed, frame_too_large}
use wire_rs.Transport.Framing.Writer
use wire_rs.Transport.Outbound.{Output, Interference, client, server, is_bound, bind, new_outbound}
use wire_rs.Transport.Outbound.Sealing.{seal, seal-fits}
use wire_rs.Transport.Outbound.Others.{acts, disconnects}
use wire_rs.Transport.Outbound.Sealing
use wire_rs.Transport.Outbound.Order.Sequence.{Step-stale, count_of}
use wire_rs.Transport.Outbound.Order.{Senders, start, finishes, finish_send}
use wire_rs.Transport.Fault.{done}
use wire_rs.Transport.Handshake.{Crypto, HostHello, ArkHello, HostAck}
use wire_rs.Transport.Server.{Offer, new_server, recv, answer_hello, accept_ack}
use wire_rs.Transport.Server
use wire_rs.Transport.Server.Events.{IsServer, Reports, recv-Reports}
use wire_rs.Transport.Client.{
  Client, Draw, new_client, connect, ◌>>=◌, await_reply, authenticate, agree,
}
use wire_rs.Transport.Client
use wire_rs.Transport.Client.Sessions.{
  IsClient, Connects, Receives, connect-Connects, recv-Receives,
}
use wire_rs.Transport.Agreement.{IsSound, answer-agrees}

-- Keys are their own public halves and fingerprints. A context is what its encapsulation carries, and a
-- sealed message begins with its recipient and its signer.
abbrev open_hello : List ℕ → Option ArkHello
open_hello (signer ∷ key ∷ encap ∷ attest) =
    some (record { ark_attest = attest; ark_crypto = key; a2h_encap = encap ∷ [] })
open_hello _ = none

abbrev signed : List ℕ → ArkHello → ℕ → Option (List ℕ)
signed (x ∷ []) hello signer = some (signer ∷ hello.ark_crypto ∷ x ∷ hello.ark_attest)
signed _ hello signer = none

abbrev sealed_for : ℕ → Option (List ℕ) → Option (List ℕ)
sealed_for recipient none = none
sealed_for recipient (some bytes) = some (recipient ∷ bytes)

abbrev opened_by : ℕ → List ℕ → Option (List ℕ)
opened_by key [] = none
opened_by key (recipient ∷ bytes) = if recipient == key then some bytes else none

abbrev signed_by : ℕ → List ℕ → Option ArkHello
signed_by identity [] = none
signed_by identity (signer ∷ bytes) =
    if signer == identity then open_hello (signer ∷ bytes) else none

abbrev first_of : List ℕ → Option ℕ
first_of [] = none
first_of (b ∷ bs) = some b

abbrev hello_in : List ℕ → Option HostHello
hello_in (signer ∷ key ∷ []) = some (record { host_signer = signer; host_crypto = key })
hello_in _ = none

abbrev ack_in : List ℕ → ℕ → ℕ → Option HostAck
ack_in (recipient ∷ signer ∷ encap) key identity =
    if recipient == key && signer == identity then some (record { h2a_encap = encap }) else none
ack_in _ key identity = none

abbrev plain : Crypto
plain = record {
  signer_public = λ k. k;
  crypto_public = λ k. k;
  fingerprint = λ k. k;
  encap_size = 1;
  new_sender = λ key direction random. some (random, random ∷ []);
  new_receiver = λ key encap direction. first_of encap;
  encode_hello = λ h. some (h.host_signer ∷ h.host_crypto ∷ []);
  decode_hello = hello_in;
  seal_hello = λ hello auth signer key time. sealed_for key (signed hello.a2h_encap hello signer);
  recipient = first_of;
  decrypt_hello = λ bytes auth key. opened_by key bytes;
  peek_hello = open_hello;
  verify_hello = λ bytes auth identity. signed_by identity bytes;
  seal_ack = λ ack auth signer key time. some (key ∷ signer ∷ ack.h2a_encap);
  open_ack = λ bytes auth key identity. ack_in bytes key identity;
  is_attestation = λ bytes. true;
}

abbrev sign1_of : ArkHello → ℕ → List ℕ → List ℕ
sign1_of hello signer [] = []
sign1_of hello signer (x ∷ xs) = signer ∷ hello.ark_crypto ∷ x ∷ hello.ark_attest

plain-IsSound : IsSound plain (λ a b. a ≡ b)
plain-IsSound = record {
  opens_hello = λ hello auth signer key time bytes e. (
    sign1_of hello signer hello.a2h_encap,
    ground arith,
    ground arith,
    ground arith,
    ground arith,
  );
  opens_ack = λ ack auth signer key time bytes e. ground arith;
  pairs = λ key random sender direction encap e. (random, ground arith, ground arith, ground arith);
}

abbrev identity : List ℕ → List ℕ
identity bs = bs

abbrev size : ℕ → ℕ
size n = n

abbrev accept_any : List ℕ → ℕ → Option (ℕ × ℕ)
accept_any [] now = none
accept_any (issuer ∷ bytes) now = some (issuer, now)

abbrev draw : Draw
draw = record { signer = 7; key = 8; random = 31; verify_time = 100; sign_time = 100 }

abbrev offer : Offer
offer = record { key = 9; random = 21; attest = 5 ∷ []; time = 100 }

-- The reply of the server that signs with 5, behind a notification and another client's reply.
abbrev reply : List ℕ
reply = 8 ∷ 5 ∷ 9 ∷ 21 ∷ 5 ∷ []

abbrev connecting : Client
connecting =
    new_client (signal ∷ packet (4 ∷ 5 ∷ 9 ∷ 21 ∷ 5 ∷ []) ∷ packet reply ∷ packet (1 ∷ []) ∷ []) []

answer-agrees_example :
    (hello : ArkHello) × ((await_reply plain identity size 8
          >>= authenticate plain identity size ℕ accept_any draw)
        connecting
      ≡ (record connecting { reads = packet (1 ∷ []) ∷ [] }, done (hello, 5, 100)))
    × ((b r : ℕ) (ack : List ℕ)
        → agree plain identity size draw hello 5 ≡ some (b, r, ack)
        → (s : ℕ) × (accept_ack plain identity size
              (Client.hello_of plain identity size draw)
              offer
              5
              ack
            ≡ some s)
          × (21 ≡ r)
          × (b ≡ s))
unfolding answer_hello
answer-agrees_example =
    answer-agrees plain identity size ℕ accept_any (λ a b. a ≡ b) draw offer 5 21 reply
      (signal ∷ packet (4 ∷ 5 ∷ 9 ∷ 21 ∷ 5 ∷ []) ∷ []) (packet (1 ∷ []) ∷ []) connecting 100
      plain-IsSound refl refl refl (refl, (refl, tt)) refl

connecting-IsClient : IsClient 0 connecting
connecting-IsClient = ground arith

connect-Connects_example : Connects 0 0 (connect plain identity size ℕ accept_any draw connecting)
connect-Connects_example =
    connect-Connects plain identity size ℕ accept_any 0 draw connecting connecting-IsClient

abbrev unseal : ℕ → List ℕ → Option (List ℕ × ℕ)
unseal c [] = none
unseal c (n ∷ bytes) = if n == c then some (bytes, suc c) else none

abbrev receiving : Client
receiving = record connecting {
  outbound = bind 0 (new_outbound client);
  receiver = some 3;
  sealer = some 0;
  contexts = 1;
  reads = packet (3 ∷ 6 ∷ []) ∷ signal ∷ [];
}

receiving-IsClient : IsClient 0 receiving
unfolding bind
receiving-IsClient = ground arith

-- Another thread disconnects the session after the message was accepted.
abbrev disconnecting : Interference
disconnecting =
    acts identity size (λ n. [])
      (λ n. disconnects 0 (record { writing = flushed; late = false }) ∷ [])

recv-Receives_example :
    Receives disconnecting 0 receiving (Client.recv unseal disconnecting receiving)
recv-Receives_example =
    recv-Receives identity size unseal (λ n. [])
      (λ n. disconnects 0 (record { writing = flushed; late = false }) ∷ []) 0 receiving
      receiving-IsClient

abbrev checked_add : ℕ → ℕ → Option ℕ
checked_add a b = some (a + b)

abbrev serving : Server.Server
serving =
    new_server 5
      (signal ∷ packet (7 ∷ 8 ∷ []) ∷ packet (9 ∷ 7 ∷ 31 ∷ []) ∷ packet (31 ∷ 6 ∷ []) ∷ []) []
      (10 ∷ []) (offer ∷ [])

-- In a session, with a message to read.
abbrev serving_on : Server.Server
serving_on = record serving {
  outbound = bind 0 (new_outbound server);
  receiver = some 3;
  sealer = some 0;
  contexts = 1;
  reads = packet (3 ∷ 6 ∷ []) ∷ [];
}

serving_on-IsServer : IsServer 0 serving_on
unfolding bind
serving_on-IsServer = ground arith

recv-Reports_example :
    Reports disconnecting 0 serving_on
      (recv plain identity size unseal checked_add disconnecting serving_on).0
      (recv plain identity size unseal checked_add disconnecting serving_on).1
recv-Reports_example =
    recv-Reports plain identity size unseal checked_add (λ n. [])
      (λ n. disconnects 0 (record { writing = flushed; late = false }) ∷ []) 0 serving_on
      serving_on-IsServer

abbrev cipher : List ℕ → Option (List ℕ)
cipher m = some (0 ∷ 0 ∷ 0 ∷ 0 ∷ 0 ∷ 0 ∷ 0 ∷ 0 ∷ 0 ∷ 0 ∷ 0 ∷ 0 ∷ 0 ∷ 0 ∷ 0 ∷ 0 ∷ m)

abbrev sealed_message : List ℕ
sealed_message = 0 ∷ 0 ∷ 0 ∷ 0 ∷ 0 ∷ 0 ∷ 0 ∷ 0 ∷ 0 ∷ 0 ∷ 0 ∷ 0 ∷ 0 ∷ 0 ∷ 0 ∷ 0 ∷ 6 ∷ []

abbrev seal_numbered : ℕ → ℕ → List ℕ → Option (List ℕ)
seal_numbered c n m = some (n ∷ m)

abbrev bound_once : Senders
bound_once = record (start server) { out = bind 0 (new_outbound server); contexts = 1 }

abbrev waiting : Senders
waiting = record bound_once {
  sealed = λ c. if 0 == c then 1 else 0;
  pending = λ c. if 0 == c then some (0 ∷ 6 ∷ []) else none;
}

-- The session has ended while a packet of it waits to be written.
abbrev overtaken : Senders
overtaken = record (start server) {
  sealed = λ c. 1;
  writing = some (0, 0, 0 ∷ 6 ∷ []);
  contexts = 1;
}

abbrev flushed_output : Output
flushed_output = record { writing = flushed; late = false }

abbrev refused_late : Senders
refused_late =
    finish_send seal_numbered identity size 0 0 (0 ∷ 6 ∷ []) flushed_output flushed_output overtaken

Step-stale_example :
    (◌≡◌ {A = ℕ} 0 0 → refused_late.out ≡ overtaken.out)
    × (is_bound 0 refused_late.out.binding ≡ false)
    × (count_of 0 refused_late.log ≡ count_of 0 [])
    × (0 < refused_late.contexts)
Step-stale_example =
    Step-stale seal_numbered identity size 0
      (finishes 0 0 (0 ∷ 6 ∷ []) flushed_output flushed_output refl) (ground arith) refl

seal-fits_example :
    (Writer.send_packet identity size sealed_message flushed false new_writer).1
    ≢ frame_too_large 17
unfolding seal Sealing.max_message_size Sealing.largest_fitting max_frame_size
seal-fits_example =
    seal-fits size identity cipher (6 ∷ []) sealed_message flushed false new_writer 17 (omega arith)
      (λ a b l. l) (λ m p e. ground arith) refl
