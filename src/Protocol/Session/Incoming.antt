-- ===== src/Protocol/Session/Incoming.antt =====
-- Messages from the peer: `handle_message`, `admit_request` and `recv` of src/protocol/session.rs, and
-- `PendingOperation::complete_response` of src/protocol/operation.rs.
use wire_rs.Base.{
  ℕ, Bool, true, false, Option, none, some, List, [], ◌∷◌, ◌++◌, length, leb, lookup, remove,
  contains, if◌then◌else◌,
}
use wire_rs.Protocol.Ids.{parity, from_id, is_request, is_response}
use wire_rs.Protocol.Errors.{Error, timeout, malformed, request_limit_exceeded, byte_limit_exceeded}
use wire_rs.Protocol.Promises.{Header, Envelope, Ledger, response, failure, reserve, detach, send}
use wire_rs.Protocol.Session.{Session, Queues, opened, ended, Operation}
use wire_rs.Protocol.Session.Ending.{fail, close}
use wire_rs.Protocol.Session.Queueing.{autoreply, unknown_request}

-- How the reader's critical section ends: with the id that still wants an automatic reply, if there
-- is one, with an error that closes the session, or in the `assert!` on the sender's kind.
pub data Verdict : Type 0 where
  accepted : Option ℕ → Verdict
  refused : Error → Verdict
  panicked : Verdict

abbrev unless_dropped : ℕ → Ledger × Bool → Ledger × Verdict
unless_dropped limit (l, true) = (l, refused (byte_limit_exceeded limit))
unless_dropped limit (l, false) = (l, accepted none)

-- `PendingOperation::complete_response`. A late answer reserves no bytes; one that exceeds the limit
-- closes the session only if its promise still exists.
unfoldable pub complete_response : Operation → ℕ → List ℕ → Header → ℕ → Ledger → Ledger × Verdict
unfolding fail
complete_response op now bytes h limit l =
    if leb op.deadline now
    then (fail op timeout now l, accepted none)
    else if op.sender.response
    then (elim (reserve l.retained (length bytes) limit) [
      | some total ↦ (
        (send op.sender (response (record { bytes = bytes; header = h; charge = length bytes }))
            (record l { retained = total })).0,
        accepted none,
      )
      | none ↦ unless_dropped limit (send op.sender (failure (byte_limit_exceeded limit)) l)
    ])
    else (l, panicked)

-- `SessionInner::admit_request`: the session after a request is admitted, or the error that refuses
-- it and leaves the queues untouched. A request with unknown content keeps only its id, for which an
-- automatic reply is due.
unfoldable pub admit_request : List ℕ → Header → Session → Queues → Session × Verdict
admit_request bytes h s q =
    if contains h.id q.reserved
    then (s, refused malformed)
    else if leb q.max_requests (length q.reserved)
    then (s, refused (request_limit_exceeded q.max_requests))
    else if h.unknown
    then (
      record s {
        state = opened (record q { reserved = h.id ∷ q.reserved });
        obligations = h.id ∷ s.obligations;
      },
      accepted (some h.id),
    )
    else (elim (reserve s.ledger.retained (length bytes) q.max_bytes) [
      | none ↦ (s, refused (byte_limit_exceeded q.max_bytes))
      | some total ↦ (
        record s {
          state = opened (record q {
            reserved = h.id ∷ q.reserved;
            incoming =
                q.incoming
                ++ ((h.id, record { bytes = bytes; header = h; charge = length bytes }) ∷ []);
          });
          ledger = record s.ledger { retained = total };
        },
        accepted none,
      )
    ])

abbrev answered : Session → Queues → Ledger × Verdict → Session × Verdict
answered s q (l, v) = (record s { state = opened q; ledger = l }, v)

-- The response branch of `handle_message`: the id's route ends, and the operation that still waits on
-- it completes. An answer that is late or matches no request is discarded.
unfoldable pub take_response : ℕ → List ℕ → Header → Session → Queues → Session × Verdict
unfolding complete_response
take_response now bytes h s q = elim (lookup h.id q.outstanding) [
  | none ↦ (s, accepted none)
  | some key ↦
      let routed : Queues = record q { outstanding = remove h.id q.outstanding } in
      (elim (lookup key q.operations) [
        | none ↦ (record s { state = opened routed }, accepted none)
        | some op ↦
            answered s (record routed { operations = remove key q.operations })
              (complete_response op now bytes h q.max_bytes s.ledger)
      ])
]

-- The critical section of `handle_message`, for an envelope with this header.
unfoldable pub route : ℕ → List ℕ → Header → Session → Session × Verdict
unfolding admit_request take_response
route now bytes h s = elim (from_id h.id (parity s.side)) [
  | is_request ↦
      if h.failed
      then (s, refused malformed)
      else (elim s.state [ ended e ↦ (s, refused e) | opened q ↦ admit_request bytes h s q ])
  | is_response ↦ elim s.state [
    | ended e ↦ (s, refused e)
    | opened q ↦ take_response now bytes h s q
  ]
]

-- What `recv` finds under the lock.
pub data Received : Type 0 where
  taken : ℕ → Envelope → Received
  over : Error → Received
  waits : Received

abbrev pop_incoming : Session → Queues → List (ℕ × Envelope) → Session × Received
pop_incoming s q [] = (s, waits)
pop_incoming s q ((id, e) ∷ rest) = (
  record s {
    state = opened (record q { incoming = rest });
    ledger = detach e.charge s.ledger;
    obligations = id ∷ s.obligations;
  },
  taken id e,
)

-- One pass of `SessionInner::recv`, up to the end of its critical section. The charge of the envelope
-- that it takes out is dropped later, by `IncomingEnvelope::decode`.
unfoldable pub receive : Session → Session × Received
receive s = elim s.state [ ended e ↦ (s, over e) | opened q ↦ pop_incoming s q q.incoming ]

-- `decode_header` is `Side::decode_header` on the session's side, `none` where it refuses the bytes.
module _ (decode_header : List ℕ → Option Header) (checked_add : ℕ → ℕ → Option ℕ) where
  abbrev pub finish : ℕ → ℕ → Session × Verdict → Session × Verdict
  finish now later (s, accepted (some id)) =
      (autoreply checked_add id unknown_request now later s, accepted none)
  finish now later (s, accepted none) = (s, accepted none)
  finish now later (s, refused e) = (s, refused e)
  finish now later (s, panicked) = (s, panicked)

  -- `SessionInner::handle_message`: the clock's readings are those of its critical section and of the
  -- automatic reply after it.
  unfoldable pub handle_message : ℕ → ℕ → ℕ → List ℕ → Session → Session × Verdict
  unfolding route autoreply
  handle_message now entry later bytes s = elim (decode_header bytes) [
    | none ↦ (s, refused malformed)
    | some h ↦ finish entry later (route now bytes h s)
  ]

  -- The reader's loop body: an error from handling the message closes the session.
  unfoldable pub read_message : ℕ → ℕ → ℕ → List ℕ → Session → Session
  unfolding handle_message
  read_message now entry later bytes s =
      let (s', v) = handle_message now entry later bytes s in
      elim v [ accepted o ↦ s' | refused e ↦ close e later s' | panicked ↦ s' ]
