-- ===== src/Protocol/Tests.antt =====
-- Runs of the envelope coding, with a concrete schema, and of the server of the protocol.
use wire_rs.Base.{
  ℕ, ◌+◌, ◌≤◌, ◌≡◌, refl, Bool, true, false, Option, none, some, List, [], ◌∷◌, length, arith, ltb,
  if◌then◌else◌,
}
use wire_rs.Protocol.Ids.{client, server}
use wire_rs.Protocol.Promises.{Header}
use wire_rs.Protocol.Envelope.{
  Parts, Schema, message, encode, decode, decoded, decode_header, header_of,
}
use wire_rs.Protocol.Envelope.Coding.{IsSchema, ends, field, decode-encode}
use wire_rs.Transport.Outbound.Sealing.{max_message_size}
use wire_rs.Transport.Outbound.Sealing
use wire_rs.Transport.Framing.{max_frame_size}
use wire_rs.Transport.Server.{event, connected}
use wire_rs.Protocol.Session.{new}
use wire_rs.Protocol.Session.Ending
use wire_rs.Protocol.Server.{Reader, reading, react, install, drop_owner, start}
use wire_rs.Protocol.Server
use wire_rs.Protocol.Server.Single.{
  Reach, here, next, reacts, installs, lets_go, replaces, Follows, session_of, Reach-one_session,
}

-- A field is its tag and one value; the wire type is not used.
abbrev pub fields_of : Parts → List ℕ
fields_of p = elim p.err [
  | none ↦ elim p.content [ none ↦ 1 ∷ p.id ∷ [] | some c ↦ 1 ∷ p.id ∷ 256 ∷ c ∷ [] ]
  | some e ↦ elim p.content [
    | none ↦ 1 ∷ p.id ∷ 2 ∷ e ∷ []
    | some c ↦ 1 ∷ p.id ∷ 2 ∷ e ∷ 256 ∷ c ∷ []
  ]
]

abbrev pub parts_in : List ℕ → Option Parts
parts_in (a ∷ id ∷ []) = some (record { id = id; err = none; content = none })
parts_in (a ∷ id ∷ tag ∷ v ∷ []) =
    if ltb tag 256
    then some (record { id = id; err = some v; content = none })
    else some (record { id = id; err = none; content = some v })
parts_in (a ∷ id ∷ tag ∷ e ∷ b ∷ c ∷ []) = some (record { id = id; err = some e; content = some c })
parts_in _ = none

abbrev pub is_some : Option ℕ → Bool
is_some none = false
is_some (some x) = true

abbrev pub outer_in : Option Parts → Option (ℕ × Bool × Bool)
outer_in none = none
outer_in (some p) = some (p.id, is_some p.err, is_some p.content)

abbrev pub key_in : List ℕ → Option (ℕ × ℕ × List ℕ)
key_in [] = none
key_in (tag ∷ rest) = some (tag, 0, rest)

abbrev pub rest_of : List ℕ → Option (List ℕ)
rest_of [] = none
rest_of (v ∷ rest) = some rest

abbrev pub toy : Schema
toy = record {
  content_of = λ side m. some m;
  message_of = λ side c. c;
  encoded_len = λ side p. length (fields_of p);
  encode_to_vec = λ side p. fields_of p;
  parse = λ side bytes. parts_in bytes;
  parse_outer = λ side bytes. outer_in (parts_in bytes);
  parse_key = key_in;
  skip_field = λ wire_type tag bytes. rest_of bytes;
}

pub toy-IsSchema : IsSchema toy
toy-IsSchema = record {
  sized = λ side p. refl;
  parses = λ side p. ground arith;
  parses_outer = λ side p. ground arith;
  converts = λ side m c e. ground arith;
  tags = λ side id e. (
    1 ∷ 2 ∷ [],
    field refl (omega arith) refl (omega arith) (field refl (omega arith) refl (omega arith) ends),
    refl,
  );
}

abbrev pub size : ℕ → ℕ
size n = n

decode-encode_example :
    (decode toy size server (1 ∷ 3 ∷ 256 ∷ 44 ∷ []) ≡ decoded 3 (message 44))
    × (decode_header toy size server (1 ∷ 3 ∷ 256 ∷ 44 ∷ [])
        ≡ header_of (record { id = 3; failed = false; unknown = false }))
    × (4 ≤ max_message_size size)
unfolding encode Sealing.max_message_size Sealing.largest_fitting max_frame_size
decode-encode_example =
    decode-encode toy size client 3 (message 44) (1 ∷ 3 ∷ 256 ∷ 44 ∷ []) toy-IsSchema refl

abbrev no_header : List ℕ → Option Header
no_header bytes = none

abbrev pub checked_add : ℕ → ℕ → Option ℕ
checked_add a b = some (a + b)

-- One session after the other has been attached, and the first one is closed.
abbrev joining : Server.Server
joining = react no_header checked_add (event (connected 0)) none 1 1 1 start

abbrev joined : Server.Server
joined = drop_owner 3 0 none (install 2 0 joining)

abbrev rejoining : Server.Server
rejoining = react no_header checked_add (event (connected 1)) (some 0) 4 4 4 joined

abbrev rejoined : Server.Server
rejoined = drop_owner 7 1 (some 0) (install 6 1 (Server.close_previous 5 1 0 rejoining))

rejoined-Reach : Reach no_header checked_add rejoined
unfolding react install drop_owner Server.close_previous Server.begin_attach
rejoined-Reach =
    next
      (next
        (next
          (next
            (next
              (next (next here (reacts (event (connected 0)) none 1 1 1 refl)) (installs 0 2 refl))
              (lets_go 0 3 none refl))
            (reacts (event (connected 1)) (some 0) 4 4 4 refl))
          (replaces 1 0 5 refl))
        (installs 1 6 refl))
      (lets_go 1 7 (some 0) refl)

Reach-one_session_example :
    (◌≡◌ {A = ℕ} 1 1) × (session_of rejoined.state ≡ some 1) × Follows 1 rejoined.reader
unfolding react install drop_owner Server.close_previous Server.begin_attach
    Ending.set_autoreply_timeout Ending.set_inbound_limits new
Reach-one_session_example =
    Reach-one_session no_header checked_add rejoined 1 1 rejoined-Reach tt refl (omega arith)
      (omega arith) refl refl
