-- ===== src/Protocol/Session/Steps.antt =====
-- The interleavings of a session's threads: each step is one critical section of the application, the
-- reader, the writer or the deadline worker.
use wire_rs.Base.{ℕ, ◌≤◌, ◌≡◌, Bool, true, false, Option, none, some, List, contains, get_elem?}
use wire_rs.Protocol.Ids.{Side}
use wire_rs.Protocol.Errors.{Error}
use wire_rs.Protocol.Promises.{
  Header, Promise, Ledger, Outcome, release, notify, drop_promise, wait_result,
}
use wire_rs.Protocol.Session.{Session, Answer, new}
use wire_rs.Protocol.Session.Ending.{expire, close, set_inbound_limits, set_autoreply_timeout}
use wire_rs.Protocol.Session.Queueing.{submit_request, submit_reply}
use wire_rs.Protocol.Session.Incoming.{route, receive}
use wire_rs.Protocol.Session.Writer.{next_outgoing, record_write, forget_request}

abbrev alive_at : Option Promise → Bool
alive_at none = false
alive_at (some p) = p.alive

-- Whether the application still has promise `i`.
abbrev pub is_held : ℕ → Ledger → Bool
is_held i l = alive_at (get_elem? l.promises i)

-- Dropping a byte charge that was taken out before is a step of its own, since no lock is held then.
-- A reply, automatic or not, is made only for an obligation, and only a promise that the application
-- still has is used. The handle that a wait or a drop consumes is gone.
pub data Step (s : Session) : Session → Type 0 where
  requests : (message deadline now : ℕ) → Step s (submit_request message deadline now s).0
  replies :
      (id : ℕ) (answer : Answer) (deadline now : ℕ)
      → contains id s.obligations ≡ true
      → Step s (submit_reply id answer deadline now s).0
  expires : (now : ℕ) → Step s (expire now s)
  closes : (e : Error) (now : ℕ) → Step s (close e now s)
  limits : (requests bytes now : ℕ) → Step s (set_inbound_limits requests bytes now s)
  retimes : (timeout : ℕ) → Step s (set_autoreply_timeout timeout s)
  routes : (now : ℕ) (bytes : List ℕ) (h : Header) → Step s (route now bytes h s).0
  receives : Step s (receive s).0
  takes : (now : ℕ) → Step s (next_outgoing now s).0
  writes : (key : ℕ) (error : Option Error) (now : ℕ) → Step s (record_write key error now s)
  forgets : (id : ℕ) → Step s (forget_request id s)
  notifies :
      (i callback : ℕ) (l : Ledger)
      → is_held i s.ledger ≡ true
      → notify i callback s.ledger ≡ some l
      → Step s (record s { ledger = l })
  drops :
      (i : ℕ) → is_held i s.ledger ≡ true → Step s (record s { ledger = drop_promise i s.ledger })
  waits :
      (i : ℕ) (r : Outcome) (l : Ledger)
      → wait_result i s.ledger ≡ some (r, l)
      → Step s (record s { ledger = l })
  releases :
      (charge : ℕ)
      → charge ≤ s.ledger.freed
      → Step s (record s { ledger = release charge s.ledger })

-- The sessions that a new one can become.
pub data Reach (side : Side) : Session → Type 0 where
  here : Reach side (new side)
  next : {s t : Session} → Reach side s → Step s t → Reach side t
