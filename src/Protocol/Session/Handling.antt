-- ===== src/Protocol/Session/Handling.antt =====
-- Handling a message, `handle_message` of src/protocol/session.rs, as steps of the session's reader.
use wire_rs.Base.{
  ℕ, ◌≡◌, ◌≢◌, refl, Option, none, some, List, arith, ◌⊎◌, inl, inr, contains, true, Option-cases,
}
use wire_rs.Protocol.Errors.{Error}
use wire_rs.Protocol.Promises.{Header}
use wire_rs.Protocol.Session.{refusal, Session, State, Queues, opened, ended}
use wire_rs.Protocol.Session.Steps
use wire_rs.Protocol.Session.Delivery.{route-no_panic}
use wire_rs.Protocol.Ids.{Side}
use wire_rs.Protocol.Session.Queueing.{unknown_request, submit_reply, autoreply, budget_end}
use wire_rs.Protocol.Session.Incoming
use wire_rs.Protocol.Session.Incoming.{
  Verdict, handle_message, route, admit_request, take_response, complete_response, finish,
}

pub State-cases : (st : State) → ((e : Error) × (st ≡ ended e)) ⊎ ((q : Queues) × (st ≡ opened q))
State-cases (ended e) = inl (e, refl)
State-cases (opened q) = inr (q, refl)

-- An automatic reply is due only for an obligation.
owed :
    (now id : ℕ) (bytes : List ℕ) (h : Header) (s : Session)
    → (route now bytes h s).1 ≡ Incoming.accepted (some id)
    → contains id (route now bytes h s).0.obligations ≡ true
unfolding route admit_request take_response complete_response contains
owed now id bytes h s e = ground arith

module _ (decode_header : List ℕ → Option Header) (checked_add : ℕ → ℕ → Option ℕ) where
  -- An automatic reply is a reply, until a deadline.
  autoreply-submit_reply :
      (id code now later : ℕ) (s : Session)
      → (deadline : ℕ) × (autoreply checked_add id code now later s
          ≡ (submit_reply id (refusal code) deadline later s).0)
  unfolding autoreply submit_reply
  autoreply-submit_reply id code now later s = elim (State-cases s.state) [
    | inl (e, h) ↦ (0, ground arith)
    | inr (q, h) ↦ (budget_end now (checked_add now q.autoreply_timeout), ground arith)
  ]

  finish-Reach :
      (a : Side) (entry later : ℕ) (s : Session) (v : Verdict)
      → Steps.Reach a s
      → ((id : ℕ) → v ≡ Incoming.accepted (some id) → contains id s.obligations ≡ true)
      → v ≢ Incoming.panicked
      → Steps.Reach a (finish decode_header checked_add entry later (s, v)).0
        × ((finish decode_header checked_add entry later (s, v)).1 ≢ Incoming.panicked)
  finish-Reach a entry later s (Incoming.accepted none) r o n = (r, λ e. ground arith)
  finish-Reach a entry later s (Incoming.accepted (some id)) r o n =
      let (deadline, e) = autoreply-submit_reply id unknown_request entry later s in
      (
        rw e (Steps.next r (Steps.replies id (refusal unknown_request) deadline later (o id refl))),
        λ x. ground arith,
      )
  finish-Reach a entry later s (Incoming.refused e) r o n = (r, λ x. ground arith)
  finish-Reach a entry later s Incoming.panicked r o n = absurd (n refl)

  -- Handling a message consists of steps of the session, and does not panic.
  pub handle_message-Reach :
      (a : Side) (now entry later : ℕ) (bytes : List ℕ) (s : Session)
      → Steps.Reach a s
      → Steps.Reach a (handle_message decode_header checked_add now entry later bytes s).0
        × ((handle_message decode_header checked_add now entry later bytes s).1 ≢ Incoming.panicked)
  unfolding handle_message
  handle_message-Reach a now entry later bytes s r = elim (Option-cases (decode_header bytes)) [
    | inl e ↦ rw (e, handle_message) (r, λ x. ground arith)
    | inr (h, e) ↦
        rw (e, handle_message)
          (finish-Reach a entry later (route now bytes h s).0 (route now bytes h s).1
            (Steps.next r (Steps.routes now bytes h)) (λ id. owed now id bytes h s)
            (route-no_panic a s now bytes h r))
  ]
