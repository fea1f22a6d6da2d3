-- ===== src/Protocol/Exchange/Flow.antt =====
-- The messages on their way from one session of src/protocol/session.rs to the other: answers, and
-- requests under new ids.
use wire_rs.Base.{
  ℕ, suc, ◌<◌, ◌≤◌, ◌≡◌, ◌≢◌, ◌∙◌, refl, subst, false, Option, none, some, List, [], ◌∷◌, ◌++◌,
  arith, inl, inr, ◌⊎◌,
}
use wire_rs.Protocol.Ids.{Side, peer_of, parity, from_id, is_response}
use wire_rs.Protocol.Errors.{Error}
use wire_rs.Protocol.Promises.{Header}
use wire_rs.Protocol.Envelope.{Schema, encode, encoded, message}
use wire_rs.Protocol.Envelope
use wire_rs.Protocol.Session.{Session, Body, Answer, Outgoing, request, reply}
use wire_rs.Protocol.Session.Incoming
use wire_rs.Protocol.Session.Incoming.{
  Verdict, route, take_response, complete_response, admit_request, handle_message, read_message,
}
use wire_rs.Protocol.Session.Writer.{take_outgoing, next_outgoing}
use wire_rs.Protocol.Session.Writer
use wire_rs.Protocol.Session.Steps
use wire_rs.Protocol.Session.Ending.{close, expire}
use wire_rs.Protocol.Session.Invariant.Routes.{
  ceiling, ceiling-Step, take_outgoing-between, Reach-IsRouted,
}
use wire_rs.Protocol.Session.Working.{body_of}
use wire_rs.Protocol.Exchange.Reading.{replied_id}
use wire_rs.Protocol.Exchange.Slots.{slots, slots-Step, side-Step, replied-foreign}

-- The writer takes a message from the session after expiry.
pub next_outgoing-take :
    (now id : ℕ) (s : Session) (m : Outgoing)
    → (next_outgoing now s).1 ≡ Writer.message id m
    → next_outgoing now s ≡ take_outgoing (expire now s)
unfolding next_outgoing
next_outgoing-take now id s m e = ground arith

pub Verdict-cases :
    (v : Verdict)
    → (v ≡ Incoming.accepted none)
      ⊎ ((id : ℕ) × (v ≡ Incoming.accepted (some id)))
      ⊎ ((e : Error) × (v ≡ Incoming.refused e))
      ⊎ (v ≡ Incoming.panicked)
Verdict-cases (Incoming.accepted none) = inl refl
Verdict-cases (Incoming.accepted (some id)) = inr (inl (id, refl))
Verdict-cases (Incoming.refused e) = inr (inr (inl (e, refl)))
Verdict-cases Incoming.panicked = inr (inr (inr refl))

Body-cases : (b : Body) → ((x : ℕ) × (b ≡ request x)) ⊎ ((id : ℕ) × (a : Answer) × (b ≡ reply id a))
Body-cases (request x) = inl (x, refl)
Body-cases (reply id a) = inr (id, a, refl)

-- Only unknown content is owed an automatic reply.
known-route :
    (now id : ℕ) (bytes : List ℕ) (h : Header) (s : Session)
    → h.unknown ≡ false
    → (route now bytes h s).1 ≢ Incoming.accepted (some id)
unfolding route admit_request take_response complete_response
known-route now id bytes h s u = ground arith

-- A message without unknown content is routed, and closes the session if that fails.
pub read_message-cases :
    (decode_header : List ℕ → Option Header) (checked_add : ℕ → ℕ → Option ℕ) (now entry later : ℕ)
    (bytes : List ℕ) (h : Header) (s : Session)
    → decode_header bytes ≡ some h
    → h.unknown ≡ false
    → (read_message decode_header checked_add now entry later bytes s ≡ (route now bytes h s).0)
      ⊎ ((e : Error) × (read_message decode_header checked_add now entry later bytes s
            ≡ close e later (route now bytes h s).0))
unfolding read_message handle_message
read_message-cases decode_header checked_add now entry later bytes h s d u =
    elim (Verdict-cases (route now bytes h s).1) [
      | inl v ↦ inl (ground arith)
      | inr (inl (id, v)) ↦ absurd (known-route now id bytes h s u v)
      | inr (inr (inl (e, v))) ↦ inr (e, ground arith)
      | inr (inr (inr v)) ↦ inl (ground arith)
    ]

-- What a session stays as its threads go on.
pub record Follows (a : Side) (s t : Session) : Type 0 where
  pub reach : Steps.Reach a t
  pub side_kept : t.side ≡ s.side
  pub higher : ceiling s.state ≤ ceiling t.state

pub Follows-Step : {s t : Session} (a : Side) → Steps.Reach a s → Steps.Step s t → Follows a s t
Follows-Step {s} a r st = record {
  reach = Steps.next r st;
  side_kept = side-Step st;
  higher = ceiling-Step st (Reach-IsRouted a s r);
}

-- A message that is read reserves what routing it reserves.
pub read_message-Follows :
    (decode_header : List ℕ → Option Header) (checked_add : ℕ → ℕ → Option ℕ) (a : Side)
    (now entry later : ℕ) (bytes : List ℕ) (h : Header) (s : Session)
    → Steps.Reach a s
    → decode_header bytes ≡ some h
    → h.unknown ≡ false
    → Follows a s (read_message decode_header checked_add now entry later bytes s)
      × ((k : ℕ)
          → slots k (read_message decode_header checked_add now entry later bytes s)
            ≤ slots k (route now bytes h s).0)
read_message-Follows decode_header checked_add a now entry later bytes h s r d u =
    let routed : Follows a s (route now bytes h s).0 =
      Follows-Step a r (Steps.routes now bytes h) in
    elim (read_message-cases decode_header checked_add now entry later bytes h s d u) [
      | inl e ↦ rw e (routed, λ k. omega arith)
      | inr (x, e) ↦
          let closing = Steps.closes x later in
          let closed : Follows a (route now bytes h s).0 (close x later (route now bytes h s).0) =
            Follows-Step a routed.reach closing in
          rw e (
            record {
              reach = closed.reach;
              side_kept = closed.side_kept ∙ routed.side_kept;
              higher = omega (arith, closed.higher, routed.higher);
            },
            λ k. slots-Step k closing refl,
          )
    ]

-- The messages on their way from `side`: answers, and requests whose ids increase from `lo` and are
-- below `hi`.
module _ (schema : Schema) (encode_buffer : ℕ → ℕ) where
  pub data Carries (side : Side) (hi : ℕ) : ℕ → List (List ℕ) → Type 0 where
    nothing : {lo : ℕ} → lo ≤ hi → Carries side hi lo []
    asks :
        {lo : ℕ} (id body : ℕ) (bytes : List ℕ) (rest : List (List ℕ))
        → encode schema encode_buffer side id (message body) ≡ encoded bytes
        → lo ≤ id
        → Carries side hi (suc id) rest
        → Carries side hi lo (bytes ∷ rest)
    answers :
        {lo : ℕ} (id : ℕ) (body : Envelope.Body) (bytes : List ℕ) (rest : List (List ℕ))
        → encode schema encode_buffer side id body ≡ encoded bytes
        → from_id id (parity (peer_of side)) ≡ is_response
        → Carries side hi lo rest
        → Carries side hi lo (bytes ∷ rest)

  Carries-mono :
      {side : Side} {hi hi' lo : ℕ} {w : List (List ℕ)}
      → hi ≤ hi'
      → Carries side hi lo w
      → Carries side hi' lo w
  Carries-mono l (nothing o) = nothing (omega arith)
  Carries-mono l (asks id body bytes rest e o c) = asks id body bytes rest e o (Carries-mono l c)
  Carries-mono l (answers id body bytes rest e k c) =
      answers id body bytes rest e k (Carries-mono l c)

  Carries-asks :
      {side : Side} {hi hi' lo : ℕ} {w : List (List ℕ)} (id body : ℕ) (bytes : List ℕ)
      → encode schema encode_buffer side id (message body) ≡ encoded bytes
      → hi ≤ id
      → id < hi'
      → Carries side hi lo w
      → Carries side hi' lo (w ++ (bytes ∷ []))
  Carries-asks id body bytes e l o (nothing m) =
      asks id body bytes [] e (omega arith) (nothing (omega arith))
  Carries-asks id body bytes e l o (asks j b bs rest e' l' c) =
      asks j b bs _ e' l' (Carries-asks id body bytes e l o c)
  Carries-asks id body bytes e l o (answers j b bs rest e' k c) =
      answers j b bs _ e' k (Carries-asks id body bytes e l o c)

  Carries-answers :
      {side : Side} {hi lo : ℕ} {w : List (List ℕ)} (id : ℕ) (body : Envelope.Body) (bytes : List ℕ)
      → encode schema encode_buffer side id body ≡ encoded bytes
      → from_id id (parity (peer_of side)) ≡ is_response
      → Carries side hi lo w
      → Carries side hi lo (w ++ (bytes ∷ []))
  Carries-answers id body bytes e k (nothing m) = answers id body bytes [] e k (nothing m)
  Carries-answers id body bytes e k (asks j b bs rest e' l' c) =
      asks j b bs _ e' l' (Carries-answers id body bytes e k c)
  Carries-answers id body bytes e k (answers j b bs rest e' k' c) =
      answers j b bs _ e' k' (Carries-answers id body bytes e k c)

  -- The requests on their way from `s` to `t` are new to it.
  pub record Flows (s : Session) (w : List (List ℕ)) (t : Session) : Type 0 where
    pub lo : ℕ
    pub unused : (k : ℕ) → lo ≤ k → slots k t ≡ 0
    pub carried : Carries s.side (ceiling s.state) lo w

  pub Flows-sender :
      (a : Side) (s s' t : Session) (w : List (List ℕ))
      → Follows a s s'
      → Flows s w t
      → Flows s' w t
  Flows-sender a s s' t w f v = record {
    lo = v.lo;
    unused = v.unused;
    carried = rw f.side_kept (Carries-mono f.higher v.carried);
  }

  pub Flows-receiver :
      (s t t' : Session) (w : List (List ℕ))
      → ((k : ℕ) → slots k t' ≤ slots k t)
      → Flows s w t
      → Flows s w t'
  Flows-receiver s t t' w l v = record {
    lo = v.lo;
    unused = λ k o. omega (arith, l k, v.unused k o);
    carried = v.carried;
  }

  -- The message that the writer takes joins the others.
  pub Flows-sent :
      (a : Side) (s t : Session) (w : List (List ℕ)) (now id : ℕ) (m : Outgoing) (bytes : List ℕ)
      → Steps.Reach a s
      → (next_outgoing now s).1 ≡ Writer.message id m
      → encode schema encode_buffer s.side id (body_of m.body) ≡ encoded bytes
      → Flows s w t
      → Flows (next_outgoing now s).0 (w ++ (bytes ∷ [])) t
  Flows-sent a s t w now id m bytes r h e v =
      let taken = next_outgoing-take now id s m h in
      let expired : Follows a s (expire now s) = Follows-Step a r (Steps.expires now) in
      let follows : Follows a s (next_outgoing now s).0 = Follows-Step a r (Steps.takes now) in
      let took : (take_outgoing (expire now s)).1 ≡ Writer.message id m = rw (← taken) h in
      elim (Body-cases m.body) [
        | inl (x, b) ↦
            let between =
              take_outgoing-between (expire now s) id x m
                (Reach-IsRouted a (expire now s) expired.reach) took b in
            record {
              lo = v.lo;
              unused = v.unused;
              carried = rw follows.side_kept (
                  Carries-asks id x bytes
                    (subst (λ y. encode schema encode_buffer s.side id (body_of y) ≡ encoded bytes)
                      b e)
                    (omega (arith, expired.higher, between.0)) (rw taken between.1) v.carried);
            }
        | inr (j, x, b) ↦
            let same : id ≡ j = replied_id (expire now s) j id x m took b in
            let kind = replied-foreign a (expire now s) id m x expired.reach took (rw same b) in
            record {
              lo = v.lo;
              unused = v.unused;
              carried = rw follows.side_kept (
                  Carries-answers id (body_of m.body) bytes e (rw (← expired.side_kept) kind)
                    (Carries-mono follows.higher v.carried));
            }
      ]
