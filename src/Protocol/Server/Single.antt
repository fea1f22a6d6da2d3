-- ===== src/Protocol/Server/Single.antt =====
-- The threads of one server of src/protocol/server.rs, and its open sessions.
use wire_rs.Base.{
  ℕ, ◌<◌, ◌≡◌, ◌⊎◌, Bool, true, false, Option, none, some, List, [], ◌∷◌, ◌++◌, arith, ◌==◌,
  if◌then◌else◌, update,
}
use wire_rs.Protocol.Errors.{Error, closed, transport, session_reset}
use wire_rs.Protocol.Promises.{Header}
use wire_rs.Protocol.Session.{Session, new}
use wire_rs.Protocol.Session.Ending.{close}
use wire_rs.Protocol.Session.Ending
use wire_rs.Protocol.Session.Incoming.{read_message}
use wire_rs.Protocol.Session.Steps
use wire_rs.Protocol.Session.Ended.{is_open, Step-ended, read_message-ended}
use wire_rs.Protocol.Ids.{server}
use wire_rs.Transport.Server.{Received, event, fault, connected, disconnected, message}
use wire_rs.Protocol.Server.{
  Policy, accepting, shut, Closing, Reader, reading, pausing, attaching, attached, closing, stopped,
  Server, start, on_session, set_autoreply_timeout, set_inbound_limits, accept, begin_close,
  finish_close, close_previous, install, drop_owner, resume, react, begin_attach,
}
use wire_rs.Protocol.Server

-- One step is what a thread does between two locks of the server: the owner and the holders of a closer
-- accept, set limits and close; the threads of a session go on; and the reader runs. Whoever has begun
-- to close has still to finish.
module _ (decode_header : List ℕ → Option Header) (checked_add : ℕ → ℕ → Option ℕ) where
  pub data Step (s : Server) : Server → Type 0 where
    accepts : Step s (accept s).0
    retimes : (timeout : ℕ) → Step s (set_autoreply_timeout timeout s)
    limits : (requests bytes now : ℕ) → Step s (set_inbound_limits requests bytes now s)
    begins :
        (e : Error)
        → Step s (record (begin_close e s).0 { closers = (begin_close e s).1 ∷ s.closers })
    finishes :
        (before after : List Closing) (c : Closing) (now : ℕ)
        → s.closers ≡ before ++ (c ∷ after)
        → Step s (record (finish_close now c s) { closers = before ++ after })
    acts :
        (i : ℕ) (t : Session)
        → Steps.Step (s.sessions i) t
        → Step s (record s { sessions = update s.sessions i t })
    reacts :
        (r : Received) (current : Option ℕ) (now entry later : ℕ)
        → s.reader ≡ reading current
        → Step s (react decode_header checked_add r current now entry later s)
    resumes : (current : Option ℕ) → s.reader ≡ pausing current → Step s (resume current s)
    replaces : (i j now : ℕ) → s.reader ≡ attaching i (some j) → Step s (close_previous now i j s)
    installs : (i now : ℕ) → s.reader ≡ attaching i none → Step s (install now i s)
    lets_go :
        (i now : ℕ) (ready : Option ℕ)
        → s.reader ≡ attached i ready
        → Step s (drop_owner now i ready s)
    stops :
        (c : Closing) (now : ℕ)
        → s.reader ≡ closing c
        → Step s (record (finish_close now c s) { reader = stopped })

  pub data Reach : Server → Type 0 where
    here : Reach start
    next : {s t : Server} → Reach s → Step s t → Reach t

abbrev is_it : ℕ → Option ℕ → Bool
is_it i none = false
is_it i (some j) = i == j

abbrev pub covers : ℕ → List Closing → Bool
covers i [] = false
covers i (c ∷ cs) = if is_it i c.session then true else covers i cs

-- The session that the server has attached.
abbrev pub session_of : Server.State → Option ℕ
session_of (accepting p) = p.session
session_of (shut e i) = none

abbrev ready_of : Server.State → Option ℕ
ready_of (accepting p) = p.ready
ready_of (shut e i) = none

abbrev holds : ℕ → Reader → Bool
holds i (reading c) = false
holds i (pausing c) = false
holds i (attaching j o) = i == j
holds i (attached j o) = false
holds i (closing c) = is_it i c.session
holds i stopped = false

abbrev starts : ℕ → Reader → Bool
starts i (reading c) = false
starts i (pausing c) = false
starts i (attaching j o) = i == j
starts i (attached j o) = false
starts i (closing c) = false
starts i stopped = false

-- The reader is not between two locks of a call that closes a session.
abbrev pub IsSettled : Reader → Type 0
IsSettled (reading c) = Unit {0}
IsSettled (pausing c) = Unit {0}
IsSettled (attaching j o) = ⊥
IsSettled (attached j o) = Unit {0}
IsSettled (closing c) = ⊥
IsSettled stopped = Unit {0}

-- Where the reader is, while session `i` is attached and open.
abbrev pub Follows : ℕ → Reader → Type 0
Follows i (reading c) = c ≡ some i
Follows i (pausing c) = c ≡ some i
Follows i (attaching j none) = ⊥
Follows i (attaching j (some k)) = k ≡ i
Follows i (attached j o) = j ≡ i
Follows i (closing c) = ⊥
Follows i stopped = ⊥

pub record IsTracked (i : ℕ) (s : Server) : Type 0 where
  pub tracked :
      i < s.created
      → is_open (s.sessions i) ≡ true
      → (session_of s.state ≡ some i) ⊎ ((holds i s.reader ≡ true) ⊎ (covers i s.closers ≡ true))
  pub followed : session_of s.state ≡ some i → is_open (s.sessions i) ≡ true → Follows i s.reader
  pub newest : ready_of s.state ≡ some i → session_of s.state ≡ some i
  pub created : session_of s.state ≡ some i → i < s.created
  pub begun : starts i s.reader ≡ true → i < s.created

is_open-close : (e : Error) (now : ℕ) (s : Session) → is_open (close e now s) ≡ false
unfolding close
is_open-close e now s = ground arith

is_open-set_inbound_limits :
    (requests bytes now : ℕ) (s : Session)
    → is_open s ≡ false
    → is_open (Ending.set_inbound_limits requests bytes now s) ≡ false
unfolding Ending.set_inbound_limits
is_open-set_inbound_limits requests bytes now s e = ground arith

is_open-set_autoreply_timeout :
    (timeout : ℕ) (s : Session)
    → is_open s ≡ false
    → is_open (Ending.set_autoreply_timeout timeout s) ≡ false
unfolding Ending.set_autoreply_timeout
is_open-set_autoreply_timeout timeout s e = ground arith

covers-append :
    (i : ℕ) (before after : List Closing) (c : Closing)
    → covers i (before ++ (c ∷ after)) ≡ true
    → (is_it i c.session ≡ true) ⊎ (covers i (before ++ after) ≡ true)
covers-append i [] after c e = ground arith
covers-append i (b ∷ before) after c e = ground (arith, covers-append i before after c)

close-ended :
    (e : Error) (now : ℕ) (s : Session) → is_open s ≡ false → is_open (close e now s) ≡ false
close-ended e now s h = is_open-close e now s

is_open-on_session :
    (i : ℕ) (o : Option ℕ) (f : Session → Session) (sessions : ℕ → Session)
    → ((s : Session) → is_open s ≡ false → is_open (f s) ≡ false)
    → is_open (on_session o f sessions i) ≡ true
    → is_open (sessions i) ≡ true
is_open-on_session i o f sessions k e = ground (arith, k (sessions i))

is_open-on_session-close :
    (i : ℕ) (o : Option ℕ) (e : Error) (now : ℕ) (sessions : ℕ → Session)
    → is_it i o ≡ true
    → is_open (on_session o (close e now) sessions i) ≡ false
is_open-on_session-close i o e now sessions h = ground (arith, is_open-close e now (sessions i))

is_open-finish_close :
    (i now : ℕ) (c : Closing) (s : Server)
    → is_open (
        on_session c.ready
          (close closed now)
          (on_session c.session (close c.reason now) s.sessions)
          i)
      ≡ true
    → (is_open (s.sessions i) ≡ true) × (is_it i c.session ≡ false)
is_open-finish_close i now c s e = ground (
  arith,
  is_open-on_session i c.ready (close closed now)
      (on_session c.session (close c.reason now) s.sessions) (close-ended closed now) e,
  is_open-on_session i c.session (close c.reason now) s.sessions (close-ended c.reason now),
  is_open-on_session-close i c.session c.reason now s.sessions,
)

module _ (decode_header : List ℕ → Option Header) (checked_add : ℕ → ℕ → Option ℕ) where
  Step-IsTracked :
      (i : ℕ) {s t : Server} → Step decode_header checked_add s t → IsTracked i s → IsTracked i t
  unfolding accept set_autoreply_timeout set_inbound_limits begin_close finish_close close_previous
      install drop_owner resume react begin_attach
  Step-IsTracked i {s} accepts v = ground arith
  Step-IsTracked i {s} (retimes n) v =
      ground (arith, is_open-set_autoreply_timeout n (s.sessions i))
  Step-IsTracked i {s} (limits a b now) v =
      ground (arith, is_open-set_inbound_limits a b now (s.sessions i))
  Step-IsTracked i {s} (begins e) v = ground arith
  Step-IsTracked i {s} (finishes before after c now e) v =
      ground (arith, covers-append i before after c, is_open-finish_close i now c s)
  Step-IsTracked i {s} (acts j t h) v = ground (arith, Step-ended h)
  Step-IsTracked i {s} (reacts (event (connected k)) c now entry later e) v =
      ground (arith, is_open-close closed now (new server))
  Step-IsTracked i {s} (reacts (event disconnected) c now entry later e) v = ground (
    arith,
    is_open-on_session i c (close (transport session_reset) now) s.sessions
        (close-ended (transport session_reset) now),
    is_open-on_session-close i c (transport session_reset) now s.sessions,
  )
  Step-IsTracked i {s} (reacts (event (message bytes)) c now entry later e) v = ground (
    arith,
    is_open-on_session i c (read_message decode_header checked_add now entry later bytes) s.sessions
        (read_message-ended decode_header checked_add now entry later bytes),
  )
  Step-IsTracked i {s} (reacts (fault f) c now entry later e) v = ground arith
  Step-IsTracked i {s} (resumes c e) v = ground arith
  Step-IsTracked i {s} (replaces k j now e) v =
      ground (arith, is_open-close (transport session_reset) now (s.sessions i))
  Step-IsTracked i {s} (installs k now e) v =
      ground (arith, is_open-close closed now (s.sessions i))
  Step-IsTracked i {s} (lets_go k now r e) v =
      ground (arith, is_open-on_session i r (close closed now) s.sessions (close-ended closed now))
  Step-IsTracked i {s} (stops c now e) v = ground (arith, is_open-finish_close i now c s)

  pub Reach-IsTracked : (s : Server) (i : ℕ) → Reach decode_header checked_add s → IsTracked i s
  Reach-IsTracked s i here = ground arith
  Reach-IsTracked s i (next r st) = Step-IsTracked i st (Reach-IsTracked _ i r)

  -- Whatever the threads do, between the calls that close a session at most one session of a server
  -- is open: the one that the server has attached, which is then the one that the reader delivers
  -- to. A server that has shut has none.
  pub Reach-one_session :
      (s : Server) (i j : ℕ)
      → Reach decode_header checked_add s
      → IsSettled s.reader
      → s.closers ≡ []
      → i < s.created
      → j < s.created
      → is_open (s.sessions i) ≡ true
      → is_open (s.sessions j) ≡ true
      → (i ≡ j) × (session_of s.state ≡ some i) × Follows i s.reader
  Reach-one_session s i j r st c k l e f =
      ground (arith, Reach-IsTracked s i r, Reach-IsTracked s j r)
