-- ===== src/Protocol/Session/Invariant/ByteLimit.antt =====
-- The byte counter under what arrives from the peer, and the byte limit.
use wire_rs.Base.{
  ℕ, ◌+◌, ◌≤◌, ◌≡◌, true, false, none, some, List, arith, length, lookup, Option-cases, inl, inr,
  Keyed,
}
use wire_rs.Protocol.Ids.{Side}
use wire_rs.Protocol.Errors.{timeout, request_limit_exceeded, byte_limit_exceeded}
use wire_rs.Protocol.Promises.{Ledger, Outcome, Header, response, failure, held, reserve, release}
use wire_rs.Protocol.Promises.Settling.{promise_at, wait_result-drop_promise}
use wire_rs.Protocol.Session.{Session, Queues, opened, ended, Operation, request, reply, new}
use wire_rs.Protocol.Session.Ending.{expire, set_inbound_limits, set_autoreply_timeout}
use wire_rs.Protocol.Session.Queueing.{discharge, submit_request, submit_reply}
use wire_rs.Protocol.Session.Incoming.{complete_response, admit_request, take_response, route}
use wire_rs.Protocol.Session.Writer.{take_outgoing, next_outgoing, forget_request}
use wire_rs.Protocol.Session.Steps
use wire_rs.Protocol.Session.Invariant.Operations.{owners}
use wire_rs.Protocol.Session.Invariant.Settling.{IsSettling, Settles}
use wire_rs.Protocol.Session.Invariant.Settled.{Reach-IsSettling}
use wire_rs.Protocol.Session.Invariant.Bytes.{queued, queued-append, Counts}
use wire_rs.Protocol.Session.Invariant.Accounting.{
  queued_of, IsCounted, expire-IsCounted, close-IsCounted, submit-IsCounted, drop_promise-Counts,
  retained-drop_promise-le, notify-Counts, receive-IsCounted, settle-Counts, record_write-IsCounted,
  retained-send,
}

reserve-eq :
    (used bytes limit total : ℕ)
    → reserve used bytes limit ≡ some total
    → (total ≡ used + bytes) × (total ≤ limit)
unfolding reserve
reserve-eq used bytes limit total h = ground arith

complete_response-Counts :
    (q key n now : ℕ) (bytes : List ℕ) (h : Header) (limit : ℕ) (ops : List (ℕ × Operation))
    (op : Operation) (l : Ledger)
    → Keyed n ops
    → lookup key ops ≡ some op
    → ((i : ℕ) → Settles (promise_at i l) (owners i ops))
    → Counts q l
    → l.retained ≤ limit
    → Counts q (complete_response op now bytes h limit l).0
      × ((complete_response op now bytes h limit l).0.retained ≤ limit)
unfolding complete_response held
complete_response-Counts q key n now bytes h limit ops op l k e v c w =
    elim (Option-cases (reserve l.retained (length bytes) limit)) [
      | inl o ↦
          rw (o, complete_response)
            (ground (
              arith,
              settle-Counts q key n ops op (failure timeout) l k e v (omega (arith, c)),
              settle-Counts q key n ops op (failure (byte_limit_exceeded limit)) l k e v
                  (omega (arith, c)),
              retained-send op (failure timeout) l,
              retained-send op (failure (byte_limit_exceeded limit)) l,
            ))
      | inr (total, o) ↦
          (let r : Outcome =
              response (record { bytes = bytes; header = h; charge = length bytes }) in
            let l' : Ledger = record l { retained = total } in
            rw (o, complete_response)
              (ground (
                arith,
                settle-Counts q key n ops op (failure timeout) l k e v (omega (arith, c)),
                settle-Counts q key n ops op r l' k e v
                    (omega (arith, c, reserve-eq l.retained (length bytes) limit total o)),
                reserve-eq l.retained (length bytes) limit total o,
                retained-send op (failure timeout) l,
                retained-send op r l',
              )))
    ]

take_response-IsCounted :
    (now : ℕ) (bytes : List ℕ) (h : Header) (s : Session) (q : Queues)
    → ((i : ℕ) → IsSettling i (record s { state = opened q }))
    → IsCounted (record s { state = opened q })
    → IsCounted (take_response now bytes h (record s { state = opened q }) q).0
unfolding take_response
take_response-IsCounted now bytes h s q a v = elim (Option-cases (lookup h.id q.outstanding)) [
  | inl e ↦ rw (e, take_response) v
  | inr (key, e) ↦ elim (Option-cases (lookup key q.operations)) [
    | inl e' ↦ rw (e, e', take_response) (record { counts = v.counts; within = v.within })
    | inr (op, e') ↦
        rw (e, e', take_response)
          (let (c, w) =
              complete_response-Counts (queued q.incoming) key s.next_key now bytes h q.max_bytes
                q.operations op s.ledger (a 0).keyed e' (λ i. (a i).settles) v.counts v.within in
            record { counts = c; within = w })
  ]
]

admit_request-IsCounted :
    (bytes : List ℕ) (h : Header) (s : Session) (q : Queues)
    → IsCounted (record s { state = opened q })
    → IsCounted (admit_request bytes h (record s { state = opened q }) q).0
unfolding admit_request
admit_request-IsCounted bytes h s q v =
    grind (arith, reserve-eq s.ledger.retained (length bytes) q.max_bytes, queued-append)

route-IsCounted :
    (now : ℕ) (bytes : List ℕ) (h : Header) (s : Session)
    → ((i : ℕ) → IsSettling i s)
    → IsCounted s
    → IsCounted (route now bytes h s).0
unfolding route
route-IsCounted now bytes h s a v =
    (elim s.state
        as (λ st.
          ((i : ℕ) → IsSettling i (record s { state = st }))
          → IsCounted (record s { state = st })
          → IsCounted (route now bytes h (record s { state = st })).0) [
            | ended e ↦ λ a v. ground arith
            | opened q ↦ λ a v. ground (
              arith,
              take_response-IsCounted now bytes h s q a v,
              admit_request-IsCounted bytes h s q v,
            )
          ])
      a v

take_outgoing-IsCounted : (s : Session) → IsCounted s → IsCounted (take_outgoing s).0
unfolding take_outgoing
take_outgoing-IsCounted s v = ground arith

next_outgoing-IsCounted :
    (now : ℕ) (s : Session)
    → ((i : ℕ) → IsSettling i s)
    → IsCounted s
    → IsCounted (next_outgoing now s).0
unfolding next_outgoing
next_outgoing-IsCounted now s a v =
    ground (arith, expire-IsCounted now s a v, take_outgoing-IsCounted (expire now s))

set_inbound_limits-IsCounted :
    (requests bytes now : ℕ) (s : Session)
    → ((i : ℕ) → IsSettling i s)
    → IsCounted s
    → IsCounted (set_inbound_limits requests bytes now s)
unfolding set_inbound_limits
set_inbound_limits-IsCounted requests bytes now s a v =
    (elim s.state
        as (λ st.
          ((i : ℕ) → IsSettling i (record s { state = st }))
          → IsCounted (record s { state = st })
          → IsCounted (set_inbound_limits requests bytes now (record s { state = st }))) [
            | ended e ↦ λ a v. v
            | opened q ↦ λ a v.
                (let limited : Session = record s {
                  state = opened (record q { max_requests = requests; max_bytes = bytes });
                } in
                  let b = λ (i : ℕ).
                    (let w : IsSettling i limited = record {
                      keyed = (a i).keyed;
                      settles = (a i).settles;
                    } in
                      w) in
                  ground (
                    arith,
                    v.counts,
                    close-IsCounted (request_limit_exceeded requests) now limited b v.counts,
                    close-IsCounted (byte_limit_exceeded bytes) now limited b v.counts,
                  ))
          ])
      a v

Step-IsCounted :
    {s t : Session} → Steps.Step s t → ((i : ℕ) → IsSettling i s) → IsCounted s → IsCounted t
unfolding set_autoreply_timeout forget_request submit_request submit_reply discharge release
Step-IsCounted {s} (Steps.requests m d now) a v = submit-IsCounted (request m) true none d now s a v
Step-IsCounted {s} (Steps.replies id x d now h) a v =
    submit-IsCounted (reply id x) false (some id) d now (discharge id s)
      (λ i. record { keyed = (a i).keyed; settles = (a i).settles })
      (record { counts = v.counts; within = v.within })
Step-IsCounted {s} (Steps.expires now) a v = expire-IsCounted now s a v
Step-IsCounted {s} (Steps.closes e now) a v = close-IsCounted e now s a v.counts
Step-IsCounted {s} (Steps.limits r b now) a v = set_inbound_limits-IsCounted r b now s a v
Step-IsCounted {s} (Steps.retimes t) a v = ground arith
Step-IsCounted {s} (Steps.routes now bytes h) a v = route-IsCounted now bytes h s a v
Step-IsCounted {s} Steps.receives a v = receive-IsCounted s v
Step-IsCounted {s} (Steps.takes now) a v = next_outgoing-IsCounted now s a v
Step-IsCounted {s} (Steps.writes key e now) a v = record_write-IsCounted key e now s a v
Step-IsCounted {s} (Steps.forgets id) a v = ground arith
Step-IsCounted {s} (Steps.notifies j c l o h) a v =
    ground (arith, notify-Counts (queued_of s.state) j c s.ledger l h v.counts)
Step-IsCounted {s} (Steps.drops j o) a v = ground (
  arith,
  drop_promise-Counts (queued_of s.state) j s.ledger v.counts,
  retained-drop_promise-le j s.ledger,
)
Step-IsCounted {s} (Steps.waits j r l h) a v = rw (wait_result-drop_promise j r s.ledger l h) (
    ground (
      arith,
      drop_promise-Counts (queued_of s.state) j s.ledger v.counts,
      retained-drop_promise-le j s.ledger,
    ))
Step-IsCounted {s} (Steps.releases n h) a v =
    (elim s.state
        as (λ st.
          IsCounted (record s { state = st })
          → IsCounted (record s { state = st; ledger = release n s.ledger })) [
            | ended e ↦ λ v. ground arith
            | opened q ↦ λ v. ground arith
          ])
      v

-- Whatever the threads do, the byte counter is the sum of the byte charges of the queued requests,
-- of the responses that wait in promises, and of the envelopes that were taken out of the session
-- or of a promise, by its holder or by a close, and whose charges are still to be dropped; and
-- while the session is open it is within `max_bytes`.
pub Reach-IsCounted : (side : Side) (s : Session) → Steps.Reach side s → IsCounted s
unfolding new
Reach-IsCounted side s Steps.here = ground arith
Reach-IsCounted side t (Steps.next r st) =
    Step-IsCounted st (λ i. Reach-IsSettling side _ i r) (Reach-IsCounted side _ r)
