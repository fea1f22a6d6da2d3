-- ===== src/Protocol/Session/Ended.antt =====
-- A session that has ended, in the steps of src/protocol/session.rs.
use wire_rs.Base.{ℕ, ◌≡◌, Bool, true, false, Option, List, arith}
use wire_rs.Protocol.Promises.{Header}
use wire_rs.Protocol.Session.{Session, opened, ended}
use wire_rs.Protocol.Session.Ending.{expire, close, set_inbound_limits, set_autoreply_timeout}
use wire_rs.Protocol.Session.Queueing.{submit, submit_request, submit_reply, autoreply, discharge}
use wire_rs.Protocol.Session.Incoming.{route, receive, handle_message, read_message}
use wire_rs.Protocol.Session.Writer.{next_outgoing, take_outgoing, record_write, forget_request}
use wire_rs.Protocol.Session.Steps.{
  Step, requests, replies, expires, closes, limits, retimes, routes, receives, takes, writes,
  forgets, notifies, drops, waits, releases,
}

abbrev pub is_open : Session → Bool
is_open s = elim s.state [ opened q ↦ true | ended e ↦ false ]

pub Step-ended : {s t : Session} → Step s t → is_open s ≡ false → is_open t ≡ false
unfolding submit_request submit_reply submit discharge expire close set_inbound_limits
    set_autoreply_timeout route receive next_outgoing take_outgoing record_write forget_request
Step-ended (requests m d now) e = ground arith
Step-ended (replies id a d now h) e = ground arith
Step-ended (expires now) e = ground arith
Step-ended (closes r now) e = ground arith
Step-ended (limits a b now) e = ground arith
Step-ended (retimes n) e = ground arith
Step-ended (routes now bytes h) e = ground arith
Step-ended receives e = ground arith
Step-ended (takes now) e = ground arith
Step-ended (writes k r now) e = ground arith
Step-ended (forgets id) e = ground arith
Step-ended (notifies i c l h g) e = ground arith
Step-ended (drops i h) e = ground arith
Step-ended (waits i r l h) e = ground arith
Step-ended (releases n h) e = ground arith

module _ (decode_header : List ℕ → Option Header) (checked_add : ℕ → ℕ → Option ℕ) where
  pub read_message-ended :
      (now entry later : ℕ) (bytes : List ℕ) (s : Session)
      → is_open s ≡ false
      → is_open (read_message decode_header checked_add now entry later bytes s) ≡ false
  unfolding read_message handle_message route autoreply close submit_reply submit discharge
  read_message-ended now entry later bytes s e = ground arith
