-- ===== src/Protocol/Session/Ending.antt =====
-- How operations end without their answer: `PendingOperation::fail`, `State::expire`, `State::close`
-- and the two calls that close a session.
use wire_rs.Base.{
  ℕ, Bool, true, false, Option, none, some, List, [], ◌∷◌, length, leb, ltb, lookup, remove_id,
  if◌then◌else◌,
}
use wire_rs.Protocol.Errors.{Error, timeout, request_limit_exceeded, byte_limit_exceeded}
use wire_rs.Protocol.Promises.{Envelope, Ledger, failure, send, detach}
use wire_rs.Protocol.Session.{
  Session, Queues, opened, ended, Operation, Outgoing, Body, request, reply,
}

-- Expiry takes precedence over another failure.
unfoldable pub fail : Operation → Error → ℕ → Ledger → Ledger
fail op e now l = (send op.sender (failure (if leb op.deadline now then timeout else e)) l).0

-- The operations are failed in the order of the list, for the hash map's own unspecified one.
unfoldable pub fail_all : List (ℕ × Operation) → Error → ℕ → Ledger → Ledger
fail_all [] e now l = l
fail_all ((k, op) ∷ ops) e now l = fail_all ops e now (fail op e now l)

unfoldable pub expired : ℕ → List (ℕ × Operation) → List (ℕ × Operation)
expired now [] = []
expired now ((k, op) ∷ ops) =
    if leb op.deadline now then (k, op) ∷ expired now ops else expired now ops

unfoldable pub live : ℕ → List (ℕ × Operation) → List (ℕ × Operation)
live now [] = []
live now ((k, op) ∷ ops) = if leb op.deadline now then live now ops else (k, op) ∷ live now ops

abbrev pub is_some {ℓ} : {A : Type ℓ} → Option A → Bool
is_some none = false
is_some (some a) = true

abbrev pub release_reply : Body → List ℕ → List ℕ
release_reply (request m) reserved = reserved
release_reply (reply id a) reserved = remove_id id reserved

-- The messages that `retain` keeps, and the ids still reserved after those that it discards.
unfoldable pub retained_messages : List (ℕ × Operation) → List Outgoing → List Outgoing
retained_messages ops [] = []
retained_messages ops (m ∷ ms) =
    if is_some (lookup m.key ops) then m ∷ retained_messages ops ms else retained_messages ops ms

unfoldable pub retained_ids : List (ℕ × Operation) → List Outgoing → List ℕ → List ℕ
retained_ids ops [] reserved = reserved
retained_ids ops (m ∷ ms) reserved =
    retained_ids ops ms
      (if is_some (lookup m.key ops) then reserved else release_reply m.body reserved)

unfoldable pub expire_queues : ℕ → Queues → Queues
expire_queues now q = record q {
  operations = live now q.operations;
  reserved = retained_ids (live now q.operations) q.outgoing q.reserved;
  outgoing = retained_messages (live now q.operations) q.outgoing;
}

-- `State::expire`
unfoldable pub expire : ℕ → Session → Session
expire now s = elim s.state [
  | ended e ↦ s
  | opened q ↦ record s {
    state = opened (expire_queues now q);
    ledger = fail_all (expired now q.operations) timeout now s.ledger;
  }
]

-- The envelopes still queued are taken out.
unfoldable pub detach_all : List (ℕ × Envelope) → Ledger → Ledger
detach_all [] l = l
detach_all ((id, e) ∷ rest) l = detach_all rest (detach e.charge l)

-- `SessionInner::close`, with the `State::close` that it makes under the lock. The queues are taken out;
-- the envelopes in them are dropped by `finish_close`, after the lock. The first reason is kept.
unfoldable pub close : Error → ℕ → Session → Session
close e now s = elim s.state [
  | ended first ↦ s
  | opened q ↦ record s {
    state = ended e;
    ledger = detach_all q.incoming (fail_all q.operations e now s.ledger);
  }
]

-- `SessionInner::set_inbound_limits`
unfoldable pub set_inbound_limits : ℕ → ℕ → ℕ → Session → Session
set_inbound_limits requests bytes now s = elim s.state [
  | ended e ↦ s
  | opened q ↦
      let limited : Session = record s {
        state = opened (record q { max_requests = requests; max_bytes = bytes });
      } in
      if ltb requests (length q.reserved)
      then close (request_limit_exceeded requests) now limited
      else if ltb bytes s.ledger.retained
      then close (byte_limit_exceeded bytes) now limited
      else limited
]

-- `SessionInner::set_autoreply_timeout`
unfoldable pub set_autoreply_timeout : ℕ → Session → Session
set_autoreply_timeout budget s = elim s.state [
  | ended e ↦ s
  | opened q ↦ record s { state = opened (record q { autoreply_timeout = budget }) }
]
