-- ===== src/Protocol/Exchange/Honest.antt =====
-- What a session makes of the messages of its peer, where both run src/protocol/session.rs.
use wire_rs.Base.{
  ℕ, suc, ◌≤◌, ◌≡◌, ◌∙◌, refl, subst, false, Option, none, some, List, [], ◌∷◌, ◌++◌, arith,
}
use wire_rs.Protocol.Ids.{Side, peer_of, peer_of-peer_of, parity, first, from_id, is_request}
use wire_rs.Protocol.Promises.{Header}
use wire_rs.Protocol.Envelope.{Schema, encode, encoded, message}
use wire_rs.Protocol.Envelope.Coding.{IsSchema}
use wire_rs.Protocol.Session.{Session, Queues, Outgoing, opened, new}
use wire_rs.Protocol.Session.Incoming
use wire_rs.Protocol.Session.Incoming.{Verdict, route, finish, handle_message, read_message}
use wire_rs.Protocol.Session.Writer.{take_outgoing, next_outgoing}
use wire_rs.Protocol.Session.Writer
use wire_rs.Protocol.Session.Steps
use wire_rs.Protocol.Session.Invariant.Routes.{ceiling}
use wire_rs.Protocol.Session.Retrieval.{header_in}
use wire_rs.Protocol.Session.Working.{body_of}
use wire_rs.Protocol.Exchange.Reading.{plain_header, header_of_encoded}
use wire_rs.Protocol.Exchange.Slots.{slots, is_route, slots-Step, slots-route, slots-route_response}
use wire_rs.Protocol.Exchange.Peers.{
  Peers, fresh_peers, Step, works, sends, reads, turns, Reach, here, next,
}
use wire_rs.Protocol.Exchange.Welcome.{IsWelcome, route-IsWelcome}
use wire_rs.Protocol.Exchange.Flow.{
  Follows, Follows-Step, read_message-Follows, Carries, nothing, asks, answers, Flows, Flows-sender,
  Flows-receiver, Flows-sent,
}

module _ (schema : Schema) (encode_buffer : ℕ → ℕ) (checked_add : ℕ → ℕ → Option ℕ) where
  -- The message at the front: its header is readable, and it is an answer or a new request.
  pub record Front (t : Session) (bytes : List ℕ) : Type 0 where
    pub header : Header
    pub readable : header_in schema encode_buffer t.side bytes ≡ some header
    pub known : header.unknown ≡ false
    pub fresh :
        from_id header.id (parity t.side) ≡ is_request
        → (header.failed ≡ false) × (slots header.id t ≡ 0)

  pub front :
      (s t : Session) {bytes : List ℕ} {rest : List (List ℕ)} {lo hi : ℕ}
      → IsSchema schema
      → t.side ≡ peer_of s.side
      → ((k : ℕ) → lo ≤ k → slots k t ≡ 0)
      → Carries schema encode_buffer s.side hi lo (bytes ∷ rest)
      → Front t bytes
  front s t x p u (asks id body bytes rest e l c) = record {
    header = plain_header id (message body);
    readable = rw p (header_of_encoded schema encode_buffer s.side id (message body) bytes x e);
    known = refl;
    fresh = λ k. (refl, u id l);
  }
  front s t x p u (answers id body bytes rest e k c) = record {
    header = plain_header id body;
    readable = rw p (header_of_encoded schema encode_buffer s.side id body bytes x e);
    known = refl;
    fresh = λ k'. absurd (ground (arith, k, k', p));
  }

  abbrev pub reading : ℕ → ℕ → ℕ → List ℕ → Session → Session
  reading now entry later bytes t =
      read_message (header_in schema encode_buffer t.side) checked_add now entry later bytes t

  -- Reading the message at the front leaves the others new.
  Flows-read :
      (a : Side) (now entry later : ℕ) (s t : Session) {bytes : List ℕ} {rest : List (List ℕ)}
      {lo : ℕ}
      → IsSchema schema
      → Steps.Reach a t
      → t.side ≡ peer_of s.side
      → ((k : ℕ) → lo ≤ k → slots k t ≡ 0)
      → Carries schema encode_buffer s.side (ceiling s.state) lo (bytes ∷ rest)
      → Follows a t (reading now entry later bytes t)
        × Flows schema encode_buffer s rest (reading now entry later bytes t)
  Flows-read a now entry later s t {lo = lo} x r p u (asks id body bytes rest e l c) =
      let h : Header = plain_header id (message body) in
      let d = header_of_encoded schema encode_buffer s.side id (message body) bytes x e in
      let (follows, fewer) =
        read_message-Follows (header_in schema encode_buffer t.side) checked_add a now entry later
          bytes h t r (rw p d) refl in
      (
        follows,
        record {
          lo = suc id;
          unused = λ k o. ground (arith, fewer k, slots-route k now bytes h t, u k (omega arith));
          carried = c;
        },
      )
  Flows-read a now entry later s t {lo = lo} x r p u (answers id body bytes rest e i c) =
      let h : Header = plain_header id body in
      let d = header_of_encoded schema encode_buffer s.side id body bytes x e in
      let (follows, fewer) =
        read_message-Follows (header_in schema encode_buffer t.side) checked_add a now entry later
          bytes h t r (rw p d) refl in
      (
        follows,
        record {
          lo = lo;
          unused =
              λ k o. omega (arith, fewer k, slots-route_response k now bytes h t (rw p i), u k o);
          carried = c;
        },
      )

  -- Both sessions are in order, and the messages between them new to those that will read them.
  pub record IsLinked (e : Peers) : Type 0 where
    pub a : Side
    pub b : Side
    pub near_reach : Steps.Reach a e.near
    pub far_reach : Steps.Reach b e.far
    pub opposite : e.near.side ≡ peer_of e.far.side
    pub forth : Flows schema encode_buffer e.near e.out e.far
    pub coming : Flows schema encode_buffer e.far e.back e.near

  works-IsLinked :
      (e : Peers) (s : Session) (st : Steps.Step e.near s)
      → is_route st ≡ false
      → IsLinked e
      → IsLinked (record e { near = s })
  works-IsLinked e s st i v =
      let follows : Follows v.a e.near s = Follows-Step v.a v.near_reach st in
      record {
        a = v.a;
        b = v.b;
        near_reach = follows.reach;
        far_reach = v.far_reach;
        opposite = follows.side_kept ∙ v.opposite;
        forth = Flows-sender schema encode_buffer v.a e.near s e.far e.out follows v.forth;
        coming =
            Flows-receiver schema encode_buffer e.far e.near s e.back (λ k. slots-Step k st i)
              v.coming;
      }

  sends-IsLinked :
      (e : Peers) (now id : ℕ) (m : Outgoing) (bytes : List ℕ)
      → (next_outgoing now e.near).1 ≡ Writer.message id m
      → encode schema encode_buffer e.near.side id (body_of m.body) ≡ encoded bytes
      → IsLinked e
      → IsLinked (record e { near = (next_outgoing now e.near).0; out = e.out ++ (bytes ∷ []) })
  sends-IsLinked e now id m bytes h c v =
      let st = Steps.takes now in
      let w = works-IsLinked e (next_outgoing now e.near).0 st refl v in
      record {
        a = w.a;
        b = w.b;
        near_reach = w.near_reach;
        far_reach = w.far_reach;
        opposite = w.opposite;
        forth =
            Flows-sent schema encode_buffer v.a e.near e.far e.out now id m bytes v.near_reach h c
              v.forth;
        coming = w.coming;
      }

  reads-IsLinked :
      (e : Peers) (now entry later : ℕ) (bytes : List ℕ) (rest : List (List ℕ))
      → IsSchema schema
      → e.back ≡ bytes ∷ rest
      → IsLinked e
      → IsLinked (record e { near = reading now entry later bytes e.near; back = rest })
  reads-IsLinked e now entry later bytes rest x h v =
      let (follows, flows) =
        Flows-read v.a now entry later e.far e.near x v.near_reach v.opposite v.coming.unused (
          subst (Carries schema encode_buffer e.far.side (ceiling e.far.state) v.coming.lo) h
            v.coming.carried) in
      record {
        a = v.a;
        b = v.b;
        near_reach = follows.reach;
        far_reach = v.far_reach;
        opposite = follows.side_kept ∙ v.opposite;
        forth = Flows-sender schema encode_buffer v.a e.near _ e.far e.out follows v.forth;
        coming = flows;
      }

  Step-IsLinked :
      {e f : Peers}
      → IsSchema schema
      → Step schema encode_buffer checked_add e f
      → IsLinked e
      → IsLinked f
  Step-IsLinked {e} x (works s st i) v = works-IsLinked e s st i v
  Step-IsLinked {e} x (sends now id m bytes h c) v = sends-IsLinked e now id m bytes h c v
  Step-IsLinked {e} x (reads now entry later bytes rest h) v =
      reads-IsLinked e now entry later bytes rest x h v
  Step-IsLinked {e} x turns v = record {
    a = v.b;
    b = v.a;
    near_reach = v.far_reach;
    far_reach = v.near_reach;
    opposite = rw v.opposite (rw peer_of-peer_of refl);
    forth = v.coming;
    coming = v.forth;
  }

  fresh-IsLinked : (side : Side) → IsLinked (fresh_peers side)
  unfolding new first parity
  fresh-IsLinked side = record {
    a = side;
    b = peer_of side;
    near_reach = Steps.here;
    far_reach = Steps.here;
    opposite = rw peer_of-peer_of refl;
    forth = record { lo = 0; unused = λ k o. refl; carried = nothing (omega arith) };
    coming = record { lo = 0; unused = λ k o. refl; carried = nothing (omega arith) };
  }

  pub Reach-IsLinked :
      (side : Side) (e : Peers)
      → IsSchema schema
      → Reach schema encode_buffer checked_add side e
      → IsLinked e
  Reach-IsLinked side e x here = fresh-IsLinked side
  Reach-IsLinked side f x (next {e} r st) = Step-IsLinked x st (Reach-IsLinked side e x r)

  -- After a verdict of these no automatic reply is queued.
  finish-welcomed :
      (q : Queues) (decode_header : List ℕ → Option Header) (entry later : ℕ)
      (r : Session × Verdict)
      → IsWelcome q r.1
      → finish decode_header checked_add entry later r ≡ r
  finish-welcomed q d entry later (s, Incoming.accepted none) w = refl
  finish-welcomed q d entry later (s, Incoming.accepted (some id)) w = absurd w
  finish-welcomed q d entry later (s, Incoming.refused e) w = refl
  finish-welcomed q d entry later (s, Incoming.panicked) w = absurd w

  handle_message-route :
      (d : List ℕ → Option Header) (q : Queues) (now entry later : ℕ) (bytes : List ℕ) (h : Header)
      (s : Session)
      → d bytes ≡ some h
      → IsWelcome q (route now bytes h s).1
      → handle_message d checked_add now entry later bytes s ≡ route now bytes h s
  unfolding handle_message
  handle_message-route d q now entry later bytes h s e w =
      ground (arith, e, finish-welcomed q d entry later (route now bytes h s) w)

  -- Where both sides run this code and the schema's code is sound, a message that a session reads
  -- while it is open has a readable header, and handling it is exactly what the critical section
  -- makes of it: no automatic reply is due for it, and none is queued. It is either accepted, or
  -- refused for the session's own limit of requests or bytes, and never as malformed.
  pub handle_message-IsWelcome :
      (side : Side) (e : Peers) (q : Queues) (now entry later : ℕ) (bytes : List ℕ)
      (rest : List (List ℕ))
      → IsSchema schema
      → Reach schema encode_buffer checked_add side e
      → e.near.state ≡ opened q
      → e.back ≡ bytes ∷ rest
      → (h : Header) × (header_in schema encode_buffer e.near.side bytes ≡ some h)
        × (handle_message
              (header_in schema encode_buffer e.near.side)
              checked_add
              now
              entry
              later
              bytes
              e.near
            ≡ route now bytes h e.near)
        × IsWelcome q (route now bytes h e.near).1
  handle_message-IsWelcome side e q now entry later bytes rest x r o h =
      let v = Reach-IsLinked side e x r in
      let f = front e.far e.near x v.opposite v.coming.unused (
        subst (Carries schema encode_buffer e.far.side (ceiling e.far.state) v.coming.lo) h
          v.coming.carried) in
      let w = route-IsWelcome v.a now bytes f.header e.near q v.near_reach o f.known f.fresh in
      (
        f.header,
        f.readable,
        handle_message-route _ q now entry later bytes f.header e.near f.readable w,
        w,
      )
