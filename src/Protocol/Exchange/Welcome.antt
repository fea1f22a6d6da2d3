-- ===== src/Protocol/Exchange/Welcome.antt =====
-- Which verdicts the reader of src/protocol/session.rs reaches on a message that the peer may send.
use wire_rs.Base.{ℕ, ◌≡◌, true, false, none, some, List, arith, ◌⊎◌, contains-count}
use wire_rs.Protocol.Ids.{Side, parity, from_id, is_request}
use wire_rs.Protocol.Errors.{request_limit_exceeded, byte_limit_exceeded}
use wire_rs.Protocol.Promises.{Header, Ledger}
use wire_rs.Protocol.Session.{Session, Queues, Operation, opened}
use wire_rs.Protocol.Session.Incoming
use wire_rs.Protocol.Session.Incoming.{
  Verdict, route, take_response, complete_response, admit_request, handle_message, read_message,
}
use wire_rs.Protocol.Session.Steps
use wire_rs.Protocol.Session.Delivery.{route-no_panic}
use wire_rs.Protocol.Exchange.Slots.{slots}

-- A message of the peer is refused only for one of the session's own limits.
abbrev pub IsWelcome : Queues → Verdict → Type 0
IsWelcome q (Incoming.accepted none) = Unit {0}
IsWelcome q (Incoming.accepted (some id)) = ⊥
IsWelcome q (Incoming.refused e) =
    (e ≡ request_limit_exceeded q.max_requests) ⊎ (e ≡ byte_limit_exceeded q.max_bytes)
IsWelcome q Incoming.panicked = ⊥

complete_response-IsWelcome :
    (q : Queues) (op : Operation) (now : ℕ) (bytes : List ℕ) (h : Header) (l : Ledger)
    → op.sender.response ≡ true
    → IsWelcome q (complete_response op now bytes h q.max_bytes l).1
unfolding complete_response
complete_response-IsWelcome q op now bytes h l r = ground arith

pub route-IsWelcome :
    (a : Side) (now : ℕ) (bytes : List ℕ) (h : Header) (s : Session) (q : Queues)
    → Steps.Reach a s
    → s.state ≡ opened q
    → h.unknown ≡ false
    → (from_id h.id (parity s.side) ≡ is_request → (h.failed ≡ false) × (slots h.id s ≡ 0))
    → IsWelcome q (route now bytes h s).1
unfolding route admit_request take_response complete_response
route-IsWelcome a now bytes h s q r o u f =
    grind (arith, contains-count h.id q.reserved, route-no_panic a s now bytes h r)
