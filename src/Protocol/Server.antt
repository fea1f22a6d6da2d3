-- ===== src/Protocol/Server.antt =====
-- The server of the protocol: `Server`, its reader thread and `ServerInner` of src/protocol/server.rs.
-- A session is its number in the order of creation. One that is freed stays in the store, closed.
use wire_rs.Base.{
  ℕ, suc, Bool, true, false, Option, none, some, List, [], ◌∷◌, if◌then◌else◌, ◌==◌, update,
}
use wire_rs.Protocol.Ids.{server}
use wire_rs.Protocol.Errors.{
  Error, closed, transport, session_reset, TransportError, invalid_attestation, handshake_failed,
  encryption_failed, frame_decoding_failed,
}
use wire_rs.Protocol.Promises.{Header}
use wire_rs.Protocol.Session.{
  Session, new, default_max_requests, default_max_bytes, default_autoreply_timeout,
}
use wire_rs.Protocol.Session.Ending.{close}
use wire_rs.Protocol.Session.Ending
use wire_rs.Protocol.Session.Incoming.{read_message}
use wire_rs.Transport.Fault.{Fault}
use wire_rs.Transport.Server.{Received, event, fault, connected, disconnected, message}
pub mod Single

pub record Policy : Type 0 where
  pub max_requests : ℕ
  pub max_bytes : ℕ
  pub autoreply_timeout : ℕ
  pub session : Option ℕ
  pub ready : Option ℕ

pub data State : Type 0 where
  accepting : Policy → State
  shut : Error → Option ℕ → State

-- What `close` has taken out of the state and still has to do without its lock: the session to close,
-- the reason, and the owner to drop.
pub record Closing : Type 0 where
  pub session : Option ℕ
  pub reason : Error
  pub ready : Option ℕ

-- Where the reader is between two locks: in `recv` or in the pause after a failed read, with its current
-- session; in `attach`, with the new session and the previous one that it still has to close; after
-- `attach`, with the owner that it still has to drop; in `close`; or ended.
pub data Reader : Type 0 where
  reading pausing : Option ℕ → Reader
  attaching : ℕ → Option ℕ → Reader
  attached : ℕ → Option ℕ → Reader
  closing : Closing → Reader
  stopped : Reader

pub record Server : Type 0 where
  pub state : State
  pub sessions : ℕ → Session
  pub created : ℕ
  pub reader : Reader
  pub closers : List Closing
  pub stream_closed : Bool

-- `Server::new`
abbrev pub start : Server
start = record {
  state = accepting (record {
    max_requests = default_max_requests;
    max_bytes = default_max_bytes;
    autoreply_timeout = default_autoreply_timeout;
    session = none;
    ready = none;
  });
  sessions = λ i. new server;
  created = 0;
  reader = reading none;
  closers = [];
  stream_closed = false;
}

-- A call on a session that may not be there.
abbrev pub on_session : Option ℕ → (Session → Session) → (ℕ → Session) → ℕ → Session
on_session none f sessions = sessions
on_session (some i) f sessions = update sessions i (f (sessions i))

-- `ServerInner::set_autoreply_timeout`
unfoldable pub set_autoreply_timeout : ℕ → Server → Server
set_autoreply_timeout timeout s = elim s.state [
  | shut e i ↦ s
  | accepting p ↦ record s {
    state = accepting (record p { autoreply_timeout = timeout });
    sessions = on_session p.session (Ending.set_autoreply_timeout timeout) s.sessions;
  }
]

-- `ServerInner::set_inbound_limits`
unfoldable pub set_inbound_limits : ℕ → ℕ → ℕ → Server → Server
set_inbound_limits requests bytes now s = elim s.state [
  | shut e i ↦ s
  | accepting p ↦ record s {
    state = accepting (record p { max_requests = requests; max_bytes = bytes });
    sessions = on_session p.session (Ending.set_inbound_limits requests bytes now) s.sessions;
  }
]

-- What one pass of the loop of `Server::accept` finds.
pub data Accepted : Type 0 where
  accepted : ℕ → Accepted
  over : Error → Accepted
  waits : Accepted

abbrev take_ready : Policy → Option ℕ → Server → Server × Accepted
take_ready p none s = (s, waits)
take_ready p (some i) s = (record s { state = accepting (record p { ready = none }) }, accepted i)

-- `Server::accept`
unfoldable pub accept : Server → Server × Accepted
accept s = elim s.state [ shut e i ↦ (s, over e) | accepting p ↦ take_ready p p.ready s ]

-- The part of `ServerInner::close` under the lock. The first reason is kept.
unfoldable pub begin_close : Error → Server → Server × Closing
begin_close e s = elim s.state [
  | shut first i ↦ (s, record { session = i; reason = first; ready = none })
  | accepting p ↦ (
    record s { state = shut e p.session },
    record { session = p.session; reason = e; ready = p.ready },
  )
]

-- The rest of `ServerInner::close`: the attached session, the owner that was never accepted, and the
-- stream.
unfoldable pub finish_close : ℕ → Closing → Server → Server
finish_close now c s = record s {
  sessions =
      on_session c.ready (close closed now) (on_session c.session (close c.reason now) s.sessions);
  stream_closed = true;
}

-- The first lock of `ServerInner::attach`, for a session just started; where the server is shut, its
-- owner is dropped and the reader ends.
unfoldable pub begin_attach : ℕ → ℕ → Server → Server
begin_attach now i s = elim s.state [
  | shut e j ↦ record s {
    sessions = update s.sessions i (close closed now (s.sessions i));
    reader = stopped;
  }
  | accepting p ↦ record s { reader = attaching i p.session }
]

-- The close of the previous session, between the two locks.
unfoldable pub close_previous : ℕ → ℕ → ℕ → Server → Server
close_previous now i j s = record s {
  sessions = update s.sessions j (close (transport session_reset) now (s.sessions j));
  reader = attaching i none;
}

abbrev with_policy : ℕ → Policy → Session → Session
with_policy now p t =
    Ending.set_autoreply_timeout p.autoreply_timeout
      (Ending.set_inbound_limits p.max_requests p.max_bytes now t)

-- The second lock of `ServerInner::attach`
unfoldable pub install : ℕ → ℕ → Server → Server
install now i s = elim s.state [
  | shut e j ↦ record s {
    sessions = update s.sessions i (close closed now (s.sessions i));
    reader = stopped;
  }
  | accepting p ↦ record s {
    state = accepting (record p { session = some i; ready = some i });
    sessions = update s.sessions i (with_policy now p (s.sessions i));
    reader = attached i p.ready;
  }
]

-- The drop of the owner that a new one has replaced; then the reader goes on.
unfoldable pub drop_owner : ℕ → ℕ → Option ℕ → Server → Server
drop_owner now i ready s = record s {
  sessions = on_session ready (close closed now) s.sessions;
  reader = reading (some i);
}

-- `ServerInner::pause_reader`, at its end.
unfoldable pub resume : Option ℕ → Server → Server
resume current s = elim s.state [
  | shut e i ↦ record s { reader = stopped }
  | accepting p ↦ record s { reader = reading current }
]

abbrev start_close : Server × Closing → Server
start_close (s, c) = record s { reader = closing c }

module _ (decode_header : List ℕ → Option Header) (checked_add : ℕ → ℕ → Option ℕ) where
  abbrev pub on_fault : Fault → Option ℕ → Server → Server
  on_fault Fault.recv_failed current s = record s { reader = pausing current }
  on_fault (Fault.send_failed k) current s = s
  on_fault Fault.terminated current s =
      start_close (begin_close (transport TransportError.terminated) s)
  on_fault Fault.frame_decoding_failed current s =
      start_close (begin_close (transport TransportError.frame_decoding_failed) s)
  on_fault (Fault.frame_too_large n) current s =
      start_close (begin_close (transport (TransportError.frame_too_large n)) s)
  on_fault (Fault.packet_too_large n) current s =
      start_close (begin_close (transport (TransportError.packet_too_large n)) s)
  on_fault Fault.handshake_failed current s =
      start_close (begin_close (transport handshake_failed) s)
  on_fault Fault.invalid_attestation current s =
      start_close (begin_close (transport invalid_attestation) s)
  on_fault Fault.encryption_failed current s =
      start_close (begin_close (transport encryption_failed) s)
  on_fault Fault.session_reset current s = start_close (begin_close (transport session_reset) s)
  on_fault Fault.panicked current s = s
  on_fault Fault.blocked current s = s
  on_fault Fault.exhausted current s = s

  -- The body of the loop of `run_reader`, up to its first lock of the server: what the transport's
  -- `recv` returned, the reader's current session, and the clock's readings.
  unfoldable pub react : Received → Option ℕ → ℕ → ℕ → ℕ → Server → Server
  unfolding begin_attach begin_close
  react (event (connected c)) current now entry later s =
      begin_attach now s.created
        (record s { sessions = update s.sessions s.created (new server); created = suc s.created })
  react (event disconnected) current now entry later s = record s {
    sessions = on_session current (close (transport session_reset) now) s.sessions;
    reader = reading none;
  }
  react (event (message bytes)) current now entry later s = record s {
    sessions =
        on_session current (read_message decode_header checked_add now entry later bytes)
          s.sessions;
  }
  react (fault f) current now entry later s = on_fault f current s
