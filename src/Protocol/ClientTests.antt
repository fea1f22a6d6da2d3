-- ===== src/Protocol/ClientTests.antt =====
-- Runs of the reader of a client session, and of a responder.
use wire_rs.Base.{ℕ, refl, true, some, [], ◌∷◌, arith}
use wire_rs.Protocol.Ids.{Side, server}
use wire_rs.Protocol.Ids
use wire_rs.Protocol.Session.Queueing.{unanswered}
use wire_rs.Protocol.Session.{Session, success, refusal, new}
use wire_rs.Protocol.Session.Steps
use wire_rs.Protocol.Session.Retrieval.{header_in}
use wire_rs.Transport.Framing.{packet, signal}
use wire_rs.Transport.Outbound
use wire_rs.Transport.Outbound.{Interference, bind, new_outbound}
use wire_rs.Transport.Client.{Client}
use wire_rs.Transport.Client.Sessions.{IsClient}
use wire_rs.Protocol.Client.{run_reader, Readings}
use wire_rs.Protocol.Client.Ends.{Ends, run_reader-Ends}
use wire_rs.Protocol.Handles.{answer, drop_responder}
use wire_rs.Protocol.Handles.Answering.{QueuesOne, auto_deadline, responder-QueuesOne}
use wire_rs.Protocol.Tests.{toy, size, checked_add}

-- A client in its first session: the server requests something, and then ends the session.
abbrev connected : Client
connected = record {
  outbound = record (new_outbound Outbound.client) { binding = some 0 };
  receiver = some 0;
  sealer = some 0;
  contexts = 1;
  reads = packet (1 ∷ 2 ∷ 256 ∷ 7 ∷ []) ∷ signal ∷ [];
  outputs = [];
}

connected-IsClient : IsClient 0 connected
connected-IsClient = record { paired = refl; current = λ e. refl; allocated = λ e. omega arith }

abbrev midday : ℕ → Readings
midday n = record { now = 12; entry = 12; later = 12 }

-- No other thread acts.
abbrev alone : Interference
alone = record { during = λ n o. o; after = λ n o. o }

run_reader-Ends_example : Ends (
    run_reader
      (λ receiver bytes. some (bytes, receiver))
      (header_in toy size Ids.client)
      checked_add
      midday
      alone
      connected
      (new Ids.client))
run_reader-Ends_example =
    run_reader-Ends (λ receiver bytes. some (bytes, receiver)) (header_in toy size Ids.client)
      checked_add midday alone Ids.client 0 connected (new Ids.client) connected-IsClient
      (tt, (tt, tt)) Steps.here

-- A responder of a session in which a request has been taken.
abbrev owing : Session
owing = record (new server) { obligations = 1 ∷ [] }

responder-QueuesOne_example :
    QueuesOne 200 5
      (success 9)
      1
      owing
      (answer checked_add true 1 (success 9) 200 5 6 7 owing).0
      owing.state
    × QueuesOne
        (auto_deadline checked_add 6 owing.state)
        7
        (refusal unanswered)
        1
        owing
        (drop_responder checked_add true (some 1) 6 7 owing)
        owing.state
responder-QueuesOne_example = responder-QueuesOne checked_add 1 200 5 6 7 (success 9) owing
