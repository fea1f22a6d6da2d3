-- ===== src/Protocol/Handles/Answering.antt =====
-- What becomes of a request whose responder is used or dropped (src/protocol/responder.rs).
use wire_rs.Base.{
  ℕ, ◌≡◌, true, false, Option, some, List, [], ◌∷◌, ◌++◌, refl, append-nil, sym, arith, leb,
  if◌then◌else◌, remove_id, Bool-cases, inl, inr,
}
use wire_rs.Protocol.Promises.{pair}
use wire_rs.Protocol.Session.{
  Session, Answer, Outgoing, State, Queues, refusal, reply, opened, ended,
}
use wire_rs.Protocol.Session.Queueing.{
  submit, enqueue, discharge, submit_reply, autoreply, unanswered, budget_end,
}
use wire_rs.Protocol.Handles.{answer, enqueue_answer, drop_responder}

-- The messages that a reply at `now` adds to those queued.
abbrev pub one_reply : ℕ → ℕ → Answer → ℕ → ℕ → List Outgoing
one_reply deadline now a id key =
    if leb deadline now then [] else record { body = reply id a; key = key } ∷ []

-- An open session has queued this reply, unless it is due, and nothing else; a closed one stays closed.
abbrev pub QueuesOne : ℕ → ℕ → Answer → ℕ → Session → Session → State → Type 0
QueuesOne deadline now a id s t (ended e) = t.state ≡ ended e
QueuesOne deadline now a id s t (opened q) =
    (r : Queues) × (t.state ≡ opened r)
    × (r.outgoing ≡ q.outgoing ++ one_reply deadline now a id s.next_key)

submit_reply-QueuesOne :
    (id deadline now : ℕ) (a : Answer) (s : Session)
    → QueuesOne deadline now a id s (submit_reply id a deadline now s).0 s.state
unfolding submit_reply submit enqueue discharge
submit_reply-QueuesOne id deadline now a s =
    (elim s.state
      as (λ st.
        QueuesOne deadline now a id s (submit_reply id a deadline now (record s { state = st })).0
          st) [
            | ended e ↦ refl
            | opened q ↦ elim (Bool-cases (leb deadline now)) [
              | inl e ↦ (
                record q { reserved = remove_id id q.reserved },
                ground arith,
                rw e (sym (append-nil q.outgoing)),
              )
              | inr e ↦ (
                record q {
                  outgoing = q.outgoing ++ (record { body = reply id a; key = s.next_key } ∷ []);
                  operations =
                      (
                        s.next_key,
                        record {
                          deadline = deadline;
                          sender = (pair false s.ledger).0;
                          log_id = some id;
                        },
                      )
                      ∷ q.operations;
                },
                ground arith,
                rw e refl,
              )
            ]
          ])

module _ (checked_add : ℕ → ℕ → Option ℕ) where
  -- Until when an automatic reply may wait.
  abbrev pub auto_deadline : ℕ → State → ℕ
  auto_deadline now (ended e) = now
  auto_deadline now (opened q) = budget_end now (checked_add now q.autoreply_timeout)

  -- A responder of a session that still exists answers once: where the application replies or fails it,
  -- that answer is queued and no automatic one; where it is dropped unused, the automatic one is. An
  -- answer that is already due is not queued, and a closed session stays closed.
  pub responder-QueuesOne :
      (id deadline now entry later : ℕ) (a : Answer) (s : Session)
      → QueuesOne deadline now a id s
          (answer checked_add true id a deadline now entry later s).0
          s.state
        × QueuesOne
            (auto_deadline entry s.state)
            later
            (refusal unanswered)
            id
            s
            (drop_responder checked_add true (some id) entry later s)
            s.state
  unfolding answer enqueue_answer drop_responder autoreply submit_reply
  responder-QueuesOne id deadline now entry later a s =
      (elim s.state
        as (λ st.
          QueuesOne deadline now a id s
            (answer checked_add true id a deadline now entry later (record s { state = st })).0 st
          × QueuesOne (auto_deadline entry st) later (refusal unanswered) id s
              (drop_responder checked_add true (some id) entry later (record s { state = st }))
              st) [
                | ended e ↦ (refl, refl)
                | opened q ↦ (
                  submit_reply-QueuesOne id deadline now a (record s { state = opened q }),
                  submit_reply-QueuesOne id (auto_deadline entry (opened q)) later
                      (refusal unanswered) (record s { state = opened q }),
                )
              ])
