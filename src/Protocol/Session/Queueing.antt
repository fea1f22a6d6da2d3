-- ===== src/Protocol/Session/Queueing.antt =====
-- Submitting requests and replies: `request`, `reply`, `enqueue` and `autoreply` of
-- src/protocol/session.rs.
use wire_rs.Base.{
  ℕ, suc, Bool, true, false, Option, none, some, [], ◌∷◌, ◌++◌, leb, remove_id, if◌then◌else◌,
}
use wire_rs.Protocol.Errors.{Error, timeout}
use wire_rs.Protocol.Promises.{pair}
use wire_rs.Protocol.Session.{
  Session, Queues, opened, ended, Operation, Body, Answer, request, reply, refusal,
}
use wire_rs.Protocol.Session.Ending.{fail, release_reply}

-- What a call that queues a message returns: the promise's index, or the error that closed the
-- session.
pub data Submitted : Type 0 where
  queued : ℕ → Submitted
  refused : Error → Submitted

-- The key is new, so inserting its operation replaces none.
unfoldable pub enqueue : Body → Operation → ℕ → Session → Queues → Session
enqueue body op now s q =
    if leb op.deadline now
    then record s {
      state = opened (record q { reserved = release_reply body q.reserved });
      ledger = fail op timeout now s.ledger;
    }
    else record s {
      state = opened (record q {
        outgoing = q.outgoing ++ (record { body = body; key = s.next_key } ∷ []);
        operations = (s.next_key, op) ∷ q.operations;
      });
      next_key = suc s.next_key;
    }

-- The promise's pair is made first; a closed session drops both halves again.
unfoldable pub submit : Body → Bool → Option ℕ → ℕ → ℕ → Session → Session × Submitted
unfolding enqueue pair
submit body wants log_id deadline now s = elim s.state [
  | ended e ↦ (s, refused e)
  | opened q ↦
      let (sender, ledger) = pair wants s.ledger in
      let op : Operation = record { deadline = deadline; sender = sender; log_id = log_id } in
      (enqueue body op now (record s { ledger = ledger }) q, queued sender.promise)
]

-- `SessionInner::request`
unfoldable pub submit_request : ℕ → ℕ → ℕ → Session → Session × Submitted
unfolding submit
submit_request message deadline now s = submit (request message) true none deadline now s

-- The responder that answers is consumed, so its obligation ends.
unfoldable pub discharge : ℕ → Session → Session
discharge id s = record s { obligations = remove_id id s.obligations }

-- `SessionInner::reply`, called by the responder for `id` or for an automatic reply.
unfoldable pub submit_reply : ℕ → Answer → ℕ → ℕ → Session → Session × Submitted
unfolding submit discharge
submit_reply id answer deadline now s =
    submit (reply id answer) false (some id) deadline now (discharge id s)

abbrev pub budget_end : ℕ → Option ℕ → ℕ
budget_end now none = now
budget_end now (some deadline) = deadline

-- `ReservedErrors::Unanswered` and `ReservedErrors::Unknown`
abbrev pub unanswered : ℕ
unanswered = 1

abbrev pub unknown_request : ℕ
unknown_request = 2

-- The sum of an instant and a duration, `none` where it cannot be represented.
module _ (checked_add : ℕ → ℕ → Option ℕ) where
  -- `SessionInner::autoreply`: the clock is read on entry, the timeout under the lock, and the clock
  -- again as the reply is queued.
  unfoldable pub autoreply : ℕ → ℕ → ℕ → ℕ → Session → Session
  unfolding submit_reply discharge
  autoreply id code now later s = elim s.state [
    | ended e ↦ discharge id s
    | opened q ↦
        (submit_reply id (refusal code) (budget_end now (checked_add now q.autoreply_timeout)) later
          s).0
  ]
