-- ===== src/Protocol/Session/Writer.antt =====
-- The writer's side of a session: `next_outgoing`, `record_write` and the writer's own critical
-- section of src/protocol/session.rs.
use wire_rs.Base.{
  ℕ, ◌+◌, ◌^◌, not, ◌||◌, Option, none, some, List, [], ◌∷◌, length, leb, ltb, ◌==◌, lookup, remove,
  insert, remove_id, if◌then◌else◌,
}
use wire_rs.Protocol.Errors.{Error, timeout}
use wire_rs.Protocol.Promises.{written, send}
use wire_rs.Protocol.Session.{
  Session, Queues, opened, ended, Operation, Outgoing, Body, request, reply,
}
use wire_rs.Protocol.Session.Ending.{fail, expire, is_some}

-- How one pass of the writer's loop ends.
pub data Taken : Type 0 where
  message : ℕ → Outgoing → Taken
  finished again waits panicked : Taken

-- `u64::checked_add(2)`
unfoldable pub next_request_id : ℕ → Option ℕ
next_request_id id = if ltb (id + 2) (2 ^ 64) then some (id + 2) else none

abbrev pub label : ℕ → ℕ → List (ℕ × Operation) → List (ℕ × Operation)
label key id [] = []
label key id ((k, op) ∷ ops) =
    (k, if k == key then record op { log_id = some id } else op) ∷ label key id ops

abbrev take_body : Outgoing → List Outgoing → Body → Session → Queues → Session × Taken
take_body m rest (request body) s q = elim q.next_id [
  | none ↦ (s, panicked)
  | some id ↦ (
    record s {
      state = opened (record q {
        outgoing = rest;
        next_id = next_request_id id;
        outstanding = insert id m.key q.outstanding;
        operations = label m.key id q.operations;
      });
    },
    message id m,
  )
]
take_body m rest (reply id answer) s q = (
  record s { state = opened (record q { outgoing = rest; reserved = remove_id id q.reserved }) },
  message id m,
)

abbrev take_front : Session → Queues → List Outgoing → Session × Taken
take_front s q [] = (s, waits)
take_front s q (m ∷ rest) = take_body m rest m.body s q

-- The part of `next_outgoing` after expiry.
unfoldable pub take_outgoing : Session → Session × Taken
unfolding next_request_id
take_outgoing s = elim s.state [ ended e ↦ (s, finished) | opened q ↦ take_front s q q.outgoing ]

-- One pass of `SessionInner::next_outgoing`. Where expiry hands over callbacks, the lock is released
-- to run them, and the loop starts again.
unfoldable pub next_outgoing : ℕ → Session → Session × Taken
unfolding expire take_outgoing
next_outgoing now s =
    let s' : Session = expire now s in
    if length s'.ledger.callbacks == length s.ledger.callbacks
    then take_outgoing s'
    else (s', again)

abbrev pub write_error : Option Error → Error
write_error none = timeout
write_error (some e) = e

-- `SessionInner::record_write`, with the write's error if it failed.
unfoldable pub record_write : ℕ → Option Error → ℕ → Session → Session
unfolding fail
record_write key error now s = elim s.state [
  | ended e ↦ s
  | opened q ↦ elim (lookup key q.operations) [
    | none ↦ s
    | some op ↦
        if leb op.deadline now || is_some error
        then record s {
          state = opened (record q { operations = remove key q.operations });
          ledger = fail op (write_error error) now s.ledger;
        }
        else if not op.sender.response
        then record s {
          state = opened (record q { operations = remove key q.operations });
          ledger = (send op.sender written s.ledger).0;
        }
        else s
  ]
]

-- The writer's critical section after a request that could not be encoded: its id awaits no answer.
unfoldable pub forget_request : ℕ → Session → Session
forget_request id s = elim s.state [
  | ended e ↦ s
  | opened q ↦ record s { state = opened (record q { outstanding = remove id q.outstanding }) }
]
