-- ===== src/Protocol/Handles.antt =====
-- The handles of an application: src/protocol/requester.rs, responder.rs and closer.rs. A handle holds
-- its session weakly: `held` says whether the session still exists.
use wire_rs.Base.{ℕ, Bool, true, false, Option, none, some, if◌then◌else◌}
use wire_rs.Protocol.Errors.{closed}
use wire_rs.Protocol.Session.{Session, Answer}
use wire_rs.Protocol.Session.Ending.{close}
use wire_rs.Protocol.Session.Queueing.{
  Submitted, queued, refused, submit_request, submit_reply, autoreply, unanswered,
}
pub mod Answering

-- `Requester::request`
unfoldable pub request : Bool → ℕ → ℕ → ℕ → Session → Session × Submitted
unfolding submit_request
request held message deadline now s =
    if held then submit_request message deadline now s else (s, refused closed)

-- `Closer::close`, of a session.
unfoldable pub close_session : Bool → ℕ → Session → Session
unfolding close
close_session held now s = if held then close closed now s else s

-- The id is cleared once a reply is queued.
abbrev pub kept : ℕ → Session × Submitted → Session × Submitted × Option ℕ
kept id (s, queued i) = (s, queued i, none)
kept id (s, refused e) = (s, refused e, some id)

-- `Responder::enqueue`, of a responder that has its id; with the id that it has afterwards.
unfoldable pub enqueue_answer : Bool → ℕ → Answer → ℕ → ℕ → Session → Session × Submitted × Option ℕ
unfolding submit_reply
enqueue_answer held id answer deadline now s =
    if held then kept id (submit_reply id answer deadline now s) else (s, refused closed, some id)

-- The clock's readings are those of an automatic reply.
module _ (checked_add : ℕ → ℕ → Option ℕ) where
  -- The `drop` of a responder.
  unfoldable pub drop_responder : Bool → Option ℕ → ℕ → ℕ → Session → Session
  unfolding autoreply
  drop_responder held none now later s = s
  drop_responder held (some id) now later s =
      if held then autoreply checked_add id unanswered now later s else s

  abbrev pub consumed : Bool → ℕ → ℕ → Session × Submitted × Option ℕ → Session × Submitted
  consumed held now later (s, r, id) = (drop_responder held id now later s, r)

  -- `Responder::reply` and `Responder::fail`, which consume the responder.
  unfoldable pub answer : Bool → ℕ → Answer → ℕ → ℕ → ℕ → ℕ → Session → Session × Submitted
  unfolding enqueue_answer drop_responder
  answer held id reply deadline now entry later s =
      consumed held entry later (enqueue_answer held id reply deadline now s)
