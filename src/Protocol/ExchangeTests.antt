-- ===== src/Protocol/ExchangeTests.antt =====
-- Runs of a request and its answer between two sessions, and of the workers of one.
use wire_rs.Base.{
  ◌≡◌, ◌≢◌, refl, true, false, none, some, [], ◌∷◌, lookup, contains, arith, remove, insert,
}
use wire_rs.Protocol.Ids.{client, server, from_id, parity, parity_of}
use wire_rs.Protocol.Errors.{wrong_direction, malformed}
use wire_rs.Protocol.Promises.{Header, Promise, Envelope, reserve}
use wire_rs.Protocol.Envelope.{encode, decode_header, has_content}
use wire_rs.Protocol.Session.{Session, Queues, Operation, request, reply, success, new}
use wire_rs.Protocol.Session.Queueing.{submit_request, submit_reply}
use wire_rs.Protocol.Session.Ending.{
  expire, fail_all, expired, expire_queues, retained_messages, live, retained_ids,
}
use wire_rs.Protocol.Session.Incoming.{route, admit_request, read_message, handle_message}
use wire_rs.Protocol.Session.Writer.{take_outgoing, next_outgoing}
use wire_rs.Protocol.Session.Steps
use wire_rs.Protocol.Session.Ended.{is_open}
use wire_rs.Protocol.Session.Retrieval.{fails, open_envelope, waited, header_in, wait_message}
use wire_rs.Protocol.Session.Retrieval.Suiting.{Returns, wait-no_panic}
use wire_rs.Protocol.Session.Working.{write_message, deadline_pass}
use wire_rs.Protocol.Session.Working.Writing.{Refuses, write_message-Refuses}
use wire_rs.Protocol.Session.Working.Sleeping.{Rests, deadline_pass-Rests}
use wire_rs.Protocol.Exchange.Peers
use wire_rs.Protocol.Exchange.Peers.{Peers}
use wire_rs.Protocol.Exchange.Welcome.{IsWelcome}
use wire_rs.Protocol.Exchange.Honest.{handle_message-IsWelcome}
use wire_rs.Protocol.Exchange.Readable.{queued, open_envelope-Received}
use wire_rs.Protocol.Exchange.Requests.{Arrives, request-Arrives}
use wire_rs.Protocol.Exchange.Answers.{seen, reply-waited}
use wire_rs.Protocol.Tests.{toy, toy-IsSchema, size, checked_add}
use wire_rs.Transport.Outbound.Sealing
use wire_rs.Transport.Framing.{max_frame_size}

abbrev asking : Session
asking = (submit_request 7 100 0 (new client)).0

asking-Reach : Steps.Reach client asking
asking-Reach = Steps.next Steps.here (Steps.requests 7 100 0)

abbrev asked : Queues
asked = record {
  max_requests = 1024;
  max_bytes = 16777216;
  autoreply_timeout = 5000;
  incoming = [];
  reserved = [];
  outgoing = record { body = request 7; key = 0 } ∷ [];
  next_id = some 1;
  outstanding = [];
  operations =
      (
        0,
        record { deadline = 100; sender = record { response = true; promise = 0 }; log_id = none },
      )
      ∷ [];
}

abbrev empty : Queues
empty = record asked { outgoing = []; next_id = some 2; operations = [] }

request-Arrives_example :
    Arrives toy size 1 7 empty (new server) (
      read_message
        (header_in toy size server)
        checked_add
        1
        1
        1
        (1 ∷ 1 ∷ 256 ∷ 7 ∷ [])
        (new server))
unfolding submit_request new take_outgoing encode reserve contains Sealing.max_message_size
    Sealing.largest_fitting max_frame_size
request-Arrives_example =
    request-Arrives toy size checked_add client asking (new server) asked empty
      (record { body = request 7; key = 0 }) 1 7 4 1 1 1 (1 ∷ 1 ∷ 256 ∷ 7 ∷ []) toy-IsSchema
      asking-Reach refl refl refl refl refl refl refl (omega arith) refl

abbrev answering : Session
answering = (submit_reply 1 (success 9) 200 5 (new server)).0

abbrev awaiting : Session
awaiting = (next_outgoing 1 asking).0

abbrev asking_for : Operation
asking_for = record {
  deadline = 100;
  sender = record { response = true; promise = 0 };
  log_id = some 1;
}

abbrev unsettled_promise : Promise
unsettled_promise = record {
  wants = true;
  result = none;
  alive = true;
  done = false;
  hook = none;
  registered = false;
}

reply-waited_example :
    (is_open
        (read_message (header_in toy size client) checked_add 1 1 2 (1 ∷ 1 ∷ 256 ∷ 9 ∷ []) awaiting)
      ≡ true)
    × ((wait_message toy size 0 2 2 (
          read_message
            (header_in toy size client)
            checked_add
            1
            1
            2
            (1 ∷ 1 ∷ 256 ∷ 9 ∷ [])
            awaiting)).1
        ≡ waited (seen (success 9)))
unfolding submit_request submit_reply new take_outgoing encode reserve contains lookup
    Sealing.max_message_size Sealing.largest_fitting max_frame_size next_outgoing expire fail_all
    expired expire_queues retained_messages live retained_ids insert remove
reply-waited_example =
    reply-waited toy size checked_add client awaiting answering
      (record empty {
        next_id = some 3;
        operations = (0, asking_for) ∷ [];
        outstanding = (1, 0) ∷ [];
      })
      (record { body = reply 1 (success 9); key = 0 }) asking_for unsettled_promise (success 9) 1 1
      0 4 1 1 2 2 (1 ∷ 1 ∷ 256 ∷ 9 ∷ []) toy-IsSchema (Steps.next asking-Reach (Steps.takes 1)) refl
      refl refl (omega arith) refl refl refl refl refl refl refl

write_message-Refuses_example :
    Refuses 5 1 wrong_direction
      (record { body = request 7; key = 0 })
      (record { deadline = 100; sender = record { response = true; promise = 0 }; log_id = none })
      asked
      asking
      (write_message
        (record toy { content_of = λ side m. none })
        size
        none
        1
        (record { body = request 7; key = 0 })
        5
        asking)
unfolding submit_request new encode lookup
write_message-Refuses_example =
    write_message-Refuses (record toy { content_of = λ side m. none }) size 5 1 wrong_direction
      (record { body = request 7; key = 0 })
      (record { deadline = 100; sender = record { response = true; promise = 0 }; log_id = none })
      asked asking none refl refl refl

deadline_pass-Rests_example : Rests 1 asking (deadline_pass 1 asking)
deadline_pass-Rests_example = deadline_pass-Rests 1 asking

wait-no_panic_example : Returns toy size 0 1 1 asking true
unfolding submit_request new
wait-no_panic_example =
    wait-no_panic toy size client asking 0 1 1 unsettled_promise asking-Reach refl

-- A request on its way to the server.
abbrev underway : Peers
underway = record {
  near = new server;
  far = (next_outgoing 1 asking).0;
  out = [];
  back = (1 ∷ 1 ∷ 256 ∷ 7 ∷ []) ∷ [];
}

underway-Reach : Peers.Reach toy size checked_add client underway
unfolding submit_request next_outgoing expire fail_all expired expire_queues retained_messages live
    retained_ids take_outgoing encode Sealing.max_message_size Sealing.largest_fitting
    max_frame_size new lookup insert remove
underway-Reach =
    Peers.next
      (Peers.next (Peers.next Peers.here (Peers.works asking (Steps.requests 7 100 0) refl))
        (Peers.sends 1 1 (record { body = request 7; key = 0 }) (1 ∷ 1 ∷ 256 ∷ 7 ∷ []) refl refl))
      Peers.turns

handle_message-IsWelcome_example :
    (h : Header) × (header_in toy size server (1 ∷ 1 ∷ 256 ∷ 7 ∷ []) ≡ some h)
    × (handle_message
          (header_in toy size server)
          checked_add
          1
          1
          1
          (1 ∷ 1 ∷ 256 ∷ 7 ∷ [])
          (new server)
        ≡ route 1 (1 ∷ 1 ∷ 256 ∷ 7 ∷ []) h (new server))
    × IsWelcome
        (record empty { next_id = some 2 })
        (route 1 (1 ∷ 1 ∷ 256 ∷ 7 ∷ []) h (new server)).1
unfolding new
handle_message-IsWelcome_example =
    handle_message-IsWelcome toy size checked_add client underway empty 1 1 1 (1 ∷ 1 ∷ 256 ∷ 7 ∷ [])
      [] toy-IsSchema underway-Reach refl refl

-- The server has read it.
abbrev arrived : Peers
arrived = record underway {
  near =
      read_message (header_in toy size server) checked_add 1 1 1 (1 ∷ 1 ∷ 256 ∷ 7 ∷ [])
        (new server);
  back = [];
}

abbrev kept_request : Envelope
kept_request = record {
  bytes = 1 ∷ 1 ∷ 256 ∷ 7 ∷ [];
  header = record { id = 1; failed = false; unknown = false };
  charge = 4;
}

arrived-Reach : Peers.Reach toy size checked_add client arrived
unfolding new
arrived-Reach = Peers.next underway-Reach (Peers.reads 1 1 1 (1 ∷ 1 ∷ 256 ∷ 7 ∷ []) [] refl)

open_envelope-Received_example :
    ((open_envelope toy size kept_request 3 arrived.near).0 ≡ arrived.near)
    × ((open_envelope toy size kept_request 3 arrived.near).1 ≢ fails malformed)
unfolding new read_message handle_message route admit_request reserve contains decode_header
    has_content from_id parity parity_of
open_envelope-Received_example =
    open_envelope-Received toy size checked_add client arrived kept_request 3 toy-IsSchema
      arrived-Reach
      (queued 1 [] (record empty { reserved = 1 ∷ []; incoming = (1, kept_request) ∷ [] }) refl
        refl)
