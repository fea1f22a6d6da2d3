-- ===== src/Protocol/Exchange/Peers.antt =====
-- The sessions of both sides with the messages on their way between them: what the reader of
-- src/protocol/session.rs gets is what the writer of the other side has sent, in that order.
use wire_rs.Base.{ℕ, ◌≡◌, false, Option, List, [], ◌∷◌, ◌++◌}
use wire_rs.Protocol.Ids.{Side, peer_of}
use wire_rs.Protocol.Envelope.{Schema, encode, encoded}
use wire_rs.Protocol.Session.{Session, Outgoing, new}
use wire_rs.Protocol.Session.Incoming.{read_message}
use wire_rs.Protocol.Session.Writer.{next_outgoing}
use wire_rs.Protocol.Session.Writer
use wire_rs.Protocol.Session.Steps
use wire_rs.Protocol.Session.Retrieval.{header_in}
use wire_rs.Protocol.Session.Working.{body_of}
use wire_rs.Protocol.Exchange.Slots.{is_route}

-- The two sessions, and the encoded messages on their way from the near one to the far one and back,
-- in the order in which they were sent.
pub record Peers : Type 0 where
  pub near : Session
  pub far : Session
  pub out : List (List ℕ)
  pub back : List (List ℕ)

abbrev pub turned : Peers → Peers
turned e = record { near = e.far; far = e.near; out = e.back; back = e.out }

abbrev pub fresh_peers : Side → Peers
fresh_peers side = record { near = new side; far = new (peer_of side); out = []; back = [] }

module _ (schema : Schema) (encode_buffer : ℕ → ℕ) (checked_add : ℕ → ℕ → Option ℕ) where
  -- Any thread of the near session makes a step, its writer takes a message and sends it, or its reader
  -- handles the next message of the far one; and the sides change their roles. A message that is taken
  -- and not sent, as it is refused or its sending fails, is a thread's step.
  pub data Step (e : Peers) : Peers → Type 0 where
    works :
        (s : Session) (st : Steps.Step e.near s)
        → is_route st ≡ false
        → Step e (record e { near = s })
    sends :
        (now id : ℕ) (m : Outgoing) (bytes : List ℕ)
        → (next_outgoing now e.near).1 ≡ Writer.message id m
        → encode schema encode_buffer e.near.side id (body_of m.body) ≡ encoded bytes
        → Step e (record e { near = (next_outgoing now e.near).0; out = e.out ++ (bytes ∷ []) })
    reads :
        (now entry later : ℕ) (bytes : List ℕ) (rest : List (List ℕ))
        → e.back ≡ bytes ∷ rest
        → Step e (record e {
          near =
              read_message
                (header_in schema encode_buffer e.near.side)
                checked_add
                now
                entry
                later
                bytes
                e.near;
          back = rest;
        })
    turns : Step e (turned e)

  pub data Reach (side : Side) : Peers → Type 0 where
    here : Reach side (fresh_peers side)
    next : {e f : Peers} → Reach side e → Step e f → Reach side f
