-- ===== src/Transport/Server.antt =====
-- The server of the transport: `Server` of src/transport/server.rs. What its frame reader returns from
-- one call to the next is a list, and so are the outcomes of its outputs, the readings of its clock, and
-- what each handshake draws and is given. A call that runs out of reads or of draws is blocked; an output
-- beyond its list takes everything at once, and a reading beyond its list is 0. Deadlines show in the
-- results of reads and outputs.
use wire_rs.Base.{
  ℕ, zero, suc, ◌+◌, Bool, true, false, Option, none, some, List, [], ◌∷◌, length, leb, ◌==◌,
  if◌then◌else◌,
}
use wire_rs.Transport.Output.{ErrorKind}
use wire_rs.Transport.Framing.{Packet, packet, signal, decoding_failed, stopped, Got}
use wire_rs.Transport.Framing.Writer.{Sent, flushed}
use wire_rs.Transport.Outbound.{
  Outbound, Output, Result, ok, err, Refusal, refused, packet_too_large, unsent, new_outbound,
  finish_receive, server, Interference,
}
use wire_rs.Transport.Outbound
use wire_rs.Transport.Fault.{
  Fault, terminated, recv_failed, frame_decoding_failed, frame_too_large, handshake_failed,
  invalid_attestation, encryption_failed, session_reset, send_failed, panicked, blocked, exhausted,
  sent_fault, stop_fault, next_output, is_present,
}
use wire_rs.Transport.Handshake.{
  HostHello, ArkHello, ArkHelloAuth, HostAck, HostAckAuth, Crypto, ark_to_host, host_to_ark,
}
pub mod Events

-- What one exchange of a handshake draws and is given: its ephemeral key, the randomness of the
-- encapsulation, the attestation, and the time.
pub record Offer : Type 0 where
  pub key : ℕ
  pub random : ℕ
  pub attest : List ℕ
  pub time : ℕ

pub record Server : Type 0 where
  pub outbound : Outbound
  pub signer : ℕ
  pub receiver : Option ℕ
  pub sealer : Option ℕ
  pub handshake_timeout : ℕ
  pub handshake_deadline : Option ℕ
  pub contexts : ℕ
  pub reads : List Packet
  pub outputs : List Output
  pub instants : List ℕ
  pub offers : List Offer

-- `DEFAULT_HANDSHAKE_TIMEOUT`, in milliseconds.
abbrev pub default_handshake_timeout : ℕ
default_handshake_timeout = 5000

-- `Server::new`
abbrev pub new_server : ℕ → List Packet → List Output → List ℕ → List Offer → Server
new_server signer reads outputs instants offers = record {
  outbound = new_outbound server;
  signer = signer;
  receiver = none;
  sealer = none;
  handshake_timeout = default_handshake_timeout;
  handshake_deadline = none;
  contexts = 0;
  reads = reads;
  outputs = outputs;
  instants = instants;
  offers = offers;
}

pub data Event : Type 0 where
  connected : ℕ → Event
  disconnected : Event
  message : List ℕ → Event

pub data Received : Type 0 where
  event : Event → Received
  fault : Fault → Received

abbrev next_instant : List ℕ → ℕ × List ℕ
next_instant [] = (0, [])
next_instant (now ∷ later) = (now, later)

-- `Server::send_dropped`, whose failure is logged only.
unfoldable pub notify_dropped : Server → Server
notify_dropped s =
    let (out, outs) = next_output s.outputs in
    record s { outbound = (Outbound.send_dropped out s.outbound).0; outputs = outs }

abbrev end_outbound : Option ℕ → Outbound → Outbound
end_outbound none o = o
end_outbound (some c) o = (Outbound.end c o).0

-- `Server::end_session`
unfoldable pub end_session : Server → Server × Bool
end_session s = (
  record s { outbound = end_outbound s.sealer s.outbound; sealer = none; receiver = none },
  is_present s.receiver,
)

-- `Server::disconnect`
unfoldable pub disconnect : Server → Server
unfolding end_session notify_dropped
disconnect s = notify_dropped (end_session s).0

-- `Server::new_session`: the receive context, and a new allocation for the sending one.
unfoldable pub new_session : ℕ → Server → Server
new_session receiver s = record s {
  outbound = Outbound.bind s.contexts s.outbound;
  receiver = some receiver;
  sealer = some s.contexts;
  contexts = suc s.contexts;
}

-- The contexts of both directions, sending first.
pub data Shaken : Type 0 where
  agreed : ℕ → ℕ → Shaken
  fails : Fault → Shaken

-- How the answer to a hello ends: with the hello, what was drawn and the sending context.
pub data Greeting : Type 0 where
  greeted : HostHello → Offer → ℕ → Greeting
  declines : Fault → Greeting

-- How one pass of the loop of `recv` ends.
pub data Pass : Type 0 where
  returns : Server → Received → Pass
  continues : Server → Pass

module _ (crypto : Crypto) (encode : List ℕ → List ℕ) (encode_buffer : ℕ → ℕ) where
  open crypto use {
    signer_public, crypto_public, encap_size, new_sender, new_receiver, decode_hello, seal_hello,
    open_ack,
  }

  abbrev pub hello_of : Offer → List ℕ → ArkHello
  hello_of offer encap = record {
    ark_attest = offer.attest;
    ark_crypto = crypto_public offer.key;
    a2h_encap = encap;
  }

  -- The answer to a hello: the sending context and the sealed reply.
  unfoldable pub answer_hello : HostHello → Offer → ℕ → Option (ℕ × List ℕ)
  answer_hello hello offer signer = elim (new_sender hello.host_crypto ark_to_host offer.random) [
    | none ↦ none
    | some (sender, encap) ↦
        elim (seal_hello (hello_of offer encap)
          (record { host_signer = hello.host_signer; host_crypto = hello.host_crypto }) signer
          hello.host_crypto offer.time) [ none ↦ none | some reply ↦ some (sender, reply) ]
  ]

  -- The receiving context out of an acknowledgement.
  unfoldable pub accept_ack : HostHello → Offer → ℕ → List ℕ → Option ℕ
  accept_ack hello offer signer bytes =
      elim (open_ack bytes
        (record { ark_signer = signer_public signer; ark_crypto = crypto_public offer.key })
        offer.key hello.host_signer) [
          | none ↦ none
          | some ack ↦
              if length ack.h2a_encap == encap_size
              then new_receiver offer.key ack.h2a_encap host_to_ark
              else none
        ]

  abbrev pub finish_ack : ℕ → Option ℕ → Shaken
  finish_ack sender none = fails handshake_failed
  finish_ack sender (some receiver) = agreed sender receiver

  abbrev pub replied :
      Server → HostHello → Offer → ℕ → Outbound × Result (Unit {0}) → Server × Greeting
  replied s hello offer sender (o, ok a) = (record s { outbound = o }, greeted hello offer sender)
  replied s hello offer sender (o, err r) = (record s { outbound = o }, declines (sent_fault r))

  -- The reply goes out, and its failure is notified within the same budget.
  abbrev pub reply_with : HostHello → Offer → Option (ℕ × List ℕ) → Server → Server × Greeting
  reply_with hello offer none s = (s, declines handshake_failed)
  reply_with hello offer (some (sender, reply)) s =
      let (out, outs) = next_output s.outputs in
      let (again, outs') = next_output outs in
      replied (record s { outputs = outs' }) hello offer sender
        (Outbound.send_packet encode encode_buffer reply out again s.outbound)

  abbrev pub greet_with : HostHello → List Offer → Server → Server × Greeting
  greet_with hello [] s = (s, declines blocked)
  greet_with hello (offer ∷ offers) s =
      reply_with hello offer (answer_hello hello offer s.signer) (record s { offers = offers })

  -- Message 1 of a handshake, and message 2 in answer.
  unfoldable pub greet : List ℕ → Server → Server × Greeting
  unfolding answer_hello
  greet bytes s = elim (decode_hello bytes) [
    | none ↦ (s, declines handshake_failed)
    | some hello ↦ greet_with hello s.offers s
  ]

  abbrev pub and_then :
      List Packet
      → Server × Greeting
      → (HostHello → Offer → ℕ → Server → Server × Shaken)
      → Server × Shaken
  and_then rest (s, declines f) go = (record s { reads = rest }, fails f)
  and_then rest (s, greeted hello offer sender) go = go hello offer sender s

  -- The loop of `Server::handshake`, over what the reader returns. Empty frames before a hello are
  -- skipped, and one in place of the acknowledgement starts it again.
  unfoldable pub shake : List Packet → Server → Server × Shaken
  unfolding greet accept_ack
  shake [] s = (record s { reads = [] }, fails blocked)
  shake (signal ∷ rest) s = shake rest s
  shake (decoding_failed ∷ rest) s = (record s { reads = rest }, fails frame_decoding_failed)
  shake (stopped g ∷ rest) s = (record s { reads = rest }, fails (stop_fault g))
  shake (packet bytes ∷ []) s =
      and_then [] (greet bytes s)
        (λ hello offer sender s'. (record s' { reads = [] }, fails blocked))
  shake (packet bytes ∷ signal ∷ rest) s =
      and_then (signal ∷ rest) (greet bytes s) (λ hello offer sender s'. shake rest s')
  shake (packet bytes ∷ decoding_failed ∷ rest) s =
      and_then (decoding_failed ∷ rest) (greet bytes s)
        (λ hello offer sender s'. (record s' { reads = rest }, fails frame_decoding_failed))
  shake (packet bytes ∷ stopped g ∷ rest) s =
      and_then (stopped g ∷ rest) (greet bytes s)
        (λ hello offer sender s'. (record s' { reads = rest }, fails (stop_fault g)))
  shake (packet bytes ∷ packet ack ∷ rest) s =
      and_then (packet ack ∷ rest) (greet bytes s) (λ hello offer sender s'.
        (record s' { reads = rest }, finish_ack sender (accept_ack hello offer s'.signer ack)))

  -- `Server::handshake`
  unfoldable pub handshake : Server → Server × Shaken
  unfolding shake
  handshake s = shake s.reads (record s { outbound = Outbound.unbind s.outbound })

abbrev pub met : (Outbound → Outbound) → Server → Server
met f s = record s { outbound = f s.outbound }

abbrev pub met_after : {A : Type 0} → (ℕ → Outbound → Outbound) → Server × A → Server × A
met_after f (s, a) = (met (f (length s.reads)) s, a)

-- `others` is what other threads do to the outbound side meanwhile.
module _ (crypto : Crypto) (encode : List ℕ → List ℕ) (encode_buffer : ℕ → ℕ)
    (unseal : ℕ → List ℕ → Option (List ℕ × ℕ)) (checked_add : ℕ → ℕ → Option ℕ)
    (others : Interference) where
  abbrev pub or_now : ℕ → Option ℕ → ℕ
  or_now now none = now
  or_now now (some deadline) = deadline

  -- `deadline_after` of src/transport/io.rs
  abbrev pub deadline_after : ℕ → ℕ → ℕ
  deadline_after now timeout = or_now now (checked_add now timeout)

  -- A handshake without a session is answered by an empty frame, unless its output had failed; the clock
  -- is read again after that.
  abbrev pub drop_handshake : ℕ → Server → Pass
  drop_handshake deadline s =
      let (now, later) = next_instant s.instants in
      if leb deadline now
      then returns (record (notify_dropped s) { instants = later }) (fault recv_failed)
      else continues (record (notify_dropped s) { instants = later })

  abbrev pub after_handshake : ℕ → Server × Shaken → Pass
  after_handshake deadline (s, agreed sender receiver) =
      returns (new_session receiver s) (event (connected s.contexts))
  after_handshake deadline (s, fails terminated) = returns s (fault terminated)
  after_handshake deadline (s, fails recv_failed) = returns s (fault recv_failed)
  after_handshake deadline (s, fails (send_failed e)) = returns s (fault (send_failed e))
  after_handshake deadline (s, fails frame_decoding_failed) = drop_handshake deadline s
  after_handshake deadline (s, fails (frame_too_large n)) = drop_handshake deadline s
  after_handshake deadline (s, fails (Fault.packet_too_large n)) = drop_handshake deadline s
  after_handshake deadline (s, fails handshake_failed) = drop_handshake deadline s
  after_handshake deadline (s, fails invalid_attestation) = drop_handshake deadline s
  after_handshake deadline (s, fails encryption_failed) = drop_handshake deadline s
  after_handshake deadline (s, fails session_reset) = drop_handshake deadline s
  after_handshake deadline (s, fails panicked) = returns s (fault panicked)
  after_handshake deadline (s, fails blocked) = returns s (fault blocked)
  after_handshake deadline (s, fails exhausted) = returns s (fault exhausted)

  abbrev pub when_ended : Server × Bool → (Server → Server) → Pass
  when_ended (s, true) go = returns (go s) (event disconnected)
  when_ended (s, false) go = continues (go s)

  abbrev pub delivered : Server → Result (List ℕ) → Pass
  delivered s (ok bytes) = returns s (event (message bytes))
  delivered s (err r) = returns (notify_dropped (end_session s).0) (event disconnected)

  -- A packet of the session: a packet that does not open leaves the receive context, and one that opens
  -- is accepted only while the session is current.
  abbrev pub open_packet : List ℕ → ℕ → Option ℕ → Server → Pass
  open_packet bytes receiver none s = returns s (fault panicked)
  open_packet bytes receiver (some c) s = elim (unseal receiver bytes) [
    | none ↦ delivered s (finish_receive c (err refused) s.outbound)
    | some (plain, receiver') ↦
        delivered (record s { receiver = some receiver' }) (finish_receive c (ok plain) s.outbound)
  ]

  abbrev pub take_packet : List ℕ → Option ℕ → Server → Pass
  take_packet bytes none s = continues (notify_dropped s)
  take_packet bytes (some receiver) s = open_packet bytes receiver s.sealer s

  abbrev pub on_reset : Server → Pass
  on_reset s =
      let (now, later) = next_instant s.instants in
      when_ended
        (end_session (record s {
          handshake_deadline = some (deadline_after now s.handshake_timeout);
          instants = later;
        }))
        (λ s'. s')

  abbrev pub on_packet : Packet → Server → Pass
  on_packet (packet bytes) s = take_packet bytes s.receiver s
  on_packet signal s = on_reset s
  on_packet decoding_failed s = when_ended (end_session s) notify_dropped
  on_packet (stopped Got.too_large) s = when_ended (end_session s) notify_dropped
  on_packet (stopped Got.terminated) s = returns s (fault terminated)
  on_packet (stopped Got.late) s = returns s (fault recv_failed)
  on_packet (stopped Got.failed) s = returns s (fault recv_failed)
  on_packet (stopped (Got.frame bs)) s = returns s (fault panicked)
  on_packet (stopped Got.panicked) s = returns s (fault panicked)

  abbrev pub on_read : List Packet → Server → Pass
  on_read [] s = returns (met (others.during 0) s) (fault blocked)
  on_read (p ∷ rest) s = on_packet p (met (others.during (length rest)) (record s { reads = rest }))

  abbrev pub pass_at : Option ℕ → Server → Pass
  pass_at none s = on_read s.reads s
  pass_at (some deadline) s =
      after_handshake deadline
        (handshake crypto encode encode_buffer (record s { handshake_deadline = none }))

  -- One pass of the loop of `Server::recv`: the handshake that a reset has left, or one read.
  unfoldable pub pass : Server → Pass
  unfolding handshake new_session end_session notify_dropped
  pass s = pass_at s.handshake_deadline s

  abbrev pub proceed : Pass → (Server → Server × Received) → Server × Received
  proceed (returns s r) go = (s, r)
  proceed (continues s) go = go s

  -- `Server::recv` on fuel.
  unfoldable pub recv_loop : ℕ → Server → Server × Received
  unfolding pass
  recv_loop zero s = (s, fault exhausted)
  recv_loop (suc fuel) s = proceed (pass s) (λ s'. recv_loop fuel s')

  -- `Server::recv`: every pass that continues takes something that the reader returned.
  unfoldable pub recv : Server → Server × Received
  unfolding recv_loop
  recv s = met_after others.after (recv_loop (suc (length s.reads)) s)
