-- ===== src/Protocol/Session.antt =====
-- The state of one session: `State` and `SessionInner` of src/protocol/session.rs, with the records of
-- src/protocol/operation.rs. Each function of the child modules is one critical section under the
-- session's lock, or a sequence of such sections where its comment says so; an instant is a number,
-- and the clock's reading is an argument.
use wire_rs.Base.{ℕ, Bool, Option, none, some, List, [], ◌∷◌}
use wire_rs.Protocol.Ids.{Side, parity, first}
use wire_rs.Protocol.Errors.{Error}
use wire_rs.Protocol.Promises.{Envelope, ResultSender, Ledger}
pub mod Ending
pub mod Queueing
pub mod Incoming
pub mod Writer
pub mod Steps
pub mod Ended
pub mod Invariant
pub mod Unsettled
pub mod Promised
pub mod Delivery
pub mod Deadlines
pub mod Retrieval
pub mod Working
pub mod Handling
mod Tests

-- A message is opaque to the session, so a number names it; an error answer is its code.
pub data Answer : Type 0 where
  success : ℕ → Answer
  refusal : ℕ → Answer

-- `OutgoingBody`
pub data Body : Type 0 where
  request : ℕ → Body
  reply : ℕ → Answer → Body

-- `OutgoingMessage`, whose handle on this session is its operation's key.
pub record Outgoing : Type 0 where
  pub body : Body
  pub key : ℕ

-- `PendingOperation`
pub record Operation : Type 0 where
  pub deadline : ℕ
  pub sender : ResultSender
  pub log_id : Option ℕ

-- `State::Open`: deques oldest first, hash maps as association lists, and `reserved_ids` as a list.
pub record Queues : Type 0 where
  pub max_requests : ℕ
  pub max_bytes : ℕ
  pub autoreply_timeout : ℕ
  pub incoming : List (ℕ × Envelope)
  pub reserved : List ℕ
  pub outgoing : List Outgoing
  pub next_id : Option ℕ
  pub outstanding : List (ℕ × ℕ)
  pub operations : List (ℕ × Operation)

pub data State : Type 0 where
  opened : Queues → State
  ended : Error → State

-- A session with its promises. `next_key` counts the allocated operation keys, each an address that
-- no other key has. `obligations` lists the peer request ids for which a `Responder` is held or an
-- automatic reply is about to be queued.
pub record Session : Type 0 where
  pub side : Side
  pub state : State
  pub ledger : Ledger
  pub next_key : ℕ
  pub obligations : List ℕ

-- `DEFAULT_MAX_INBOUND_REQUESTS`, `DEFAULT_MAX_INBOUND_BYTES` and `DEFAULT_AUTOREPLY_TIMEOUT`, the
-- last in milliseconds.
abbrev pub default_max_requests : ℕ
default_max_requests = 1024

abbrev pub default_max_bytes : ℕ
default_max_bytes = 16777216

abbrev pub default_autoreply_timeout : ℕ
default_autoreply_timeout = 5000

-- `SessionInner::new`
unfoldable pub new : Side → Session
unfolding parity first
new side = record {
  side = side;
  state = opened (record {
    max_requests = default_max_requests;
    max_bytes = default_max_bytes;
    autoreply_timeout = default_autoreply_timeout;
    incoming = [];
    reserved = [];
    outgoing = [];
    next_id = some (first (parity side));
    outstanding = [];
    operations = [];
  });
  ledger = record { promises = []; retained = 0; freed = 0; callbacks = [] };
  next_key = 0;
  obligations = [];
}
