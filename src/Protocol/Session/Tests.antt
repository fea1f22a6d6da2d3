-- ===== src/Protocol/Session/Tests.antt =====
-- Runs of a client's session: a request that is submitted, sent and answered.
use wire_rs.Base.{◌<◌, ◌≤◌, ◌≡◌, refl, true, false, none, some, [], ◌∷◌, lookup, remove, insert}
use wire_rs.Protocol.Ids.{client, server, from_id, parity, is_request, is_response}
use wire_rs.Protocol.Errors.{malformed}
use wire_rs.Protocol.Promises.{Promise, Header, Outcome, response, failure, reserve, send}
use wire_rs.Protocol.Promises.Settling.{settled_by}
use wire_rs.Protocol.Session.{Session, Queues, Operation, Outgoing, request, new}
use wire_rs.Protocol.Session.Ending.{
  expire, close, fail_all, detach_all, fail, expired, expire_queues, retained_messages, live,
}
use wire_rs.Protocol.Session.Queueing.{submit_request}
use wire_rs.Protocol.Session.Incoming.{route}
use wire_rs.Protocol.Session.Writer.{take_outgoing, next_outgoing}
use wire_rs.Protocol.Session.Steps.{Reach, here, next, requests, takes, routes, closes}
use wire_rs.Protocol.Session.Invariant.RequestIds.{IsPlaced, Reach-IsPlaced}
use wire_rs.Protocol.Session.Invariant.Settling.{IsSettling}
use wire_rs.Protocol.Session.Invariant.Settled.{Reach-IsSettling}
use wire_rs.Protocol.Session.Invariant.Accounting.{IsCounted}
use wire_rs.Protocol.Session.Invariant.ByteLimit.{Reach-IsCounted}
use wire_rs.Protocol.Session.Invariant.Routes.{IsRouted, Reach-IsRouted, take_outgoing-fresh}
use wire_rs.Protocol.Session.Promised.{close-settles, Step-keeps_result}
use wire_rs.Protocol.Session.Delivery.{received}
use wire_rs.Protocol.Session.Deadlines.{IsFreshIn, expire-IsFresh}

abbrev asking : Session
asking = (submit_request 7 100 0 (new client)).0

asking-Reach : Reach client asking
asking-Reach = next here (requests 7 100 0)

abbrev sending : Session
sending = (next_outgoing 1 asking).0

sending-Reach : Reach client sending
sending-Reach = next asking-Reach (takes 1)

abbrev header : Header
header = record { id = 1; failed = false; unknown = false }

abbrev answering : Session
answering = (route 5 (9 ∷ []) header sending).0

answering-Reach : Reach client answering
answering-Reach = next sending-Reach (routes 5 (9 ∷ []) header)

abbrev waiting : Promise
waiting = record {
  wants = true;
  result = none;
  alive = true;
  done = false;
  hook = none;
  registered = false;
}

abbrev answered_promise : Promise
answered_promise = settled_by (response (received (9 ∷ []) header)) waiting

abbrev operation : Operation
operation = record {
  deadline = 100;
  sender = record { response = true; promise = 0 };
  log_id = none;
}

abbrev question : Outgoing
question = record { body = request 7; key = 0 }

abbrev asking_queues : Queues
asking_queues = record {
  max_requests = 1024;
  max_bytes = 16777216;
  autoreply_timeout = 5000;
  incoming = [];
  reserved = [];
  outgoing = question ∷ [];
  next_id = some 1;
  outstanding = [];
  operations = (0, operation) ∷ [];
}

abbrev sending_queues : Queues
sending_queues = record asking_queues {
  outgoing = [];
  next_id = some 3;
  outstanding = (1, 0) ∷ [];
  operations = (0, record operation { log_id = some 1 }) ∷ [];
}

Reach-IsSettling_example : IsSettling 0 answering
Reach-IsSettling_example = Reach-IsSettling client answering 0 answering-Reach

Reach-IsPlaced_example : IsPlaced 2 answering
Reach-IsPlaced_example = Reach-IsPlaced client answering 2 answering-Reach

Reach-IsCounted_example : IsCounted answering
Reach-IsCounted_example = Reach-IsCounted client answering answering-Reach

Reach-IsRouted_example : IsRouted sending
Reach-IsRouted_example = Reach-IsRouted client sending sending-Reach

close-settles_example : (true ≡ true) × (r : Outcome) × (some (failure malformed) ≡ some r)
unfolding new submit_request close fail_all detach_all fail send
close-settles_example =
    close-settles client asking malformed 50 0 (settled_by (failure malformed) waiting) asking-Reach
      refl refl

Step-keeps_result_example :
    (answered_promise.result ≡ answered_promise.result) × (answered_promise.done ≡ true)
unfolding new submit_request next_outgoing route close fail_all from_id expired expire_queues
    retained_messages lookup live insert reserve send detach_all remove
Step-keeps_result_example =
    Step-keeps_result client 0 answered_promise answered_promise answering-Reach
      (closes malformed 60) refl refl refl refl

take_outgoing-fresh_example :
    (from_id 1 (parity client) ≡ is_response)
    × (from_id 1 (parity server) ≡ is_request)
    × (lookup 1 asking_queues.outstanding ≡ none)
    × (1 ≤ 1)
    × (1 < 3)
unfolding new submit_request take_outgoing insert remove
take_outgoing-fresh_example =
    take_outgoing-fresh client asking 1 7 question asking_queues sending_queues asking-Reach refl
      refl refl refl

expire-IsFresh_example : IsFreshIn 100 (expire 100 asking).state
expire-IsFresh_example = expire-IsFresh 100 asking
