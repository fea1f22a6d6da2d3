-- ===== src/Transport/Server/Events.antt =====
-- The sessions that `recv` of src/transport/server.rs reports, and the state that stands for them.
use wire_rs.Base.{
  ℕ, zero, suc, ◌<◌, ◌≡◌, ◌≢◌, refl, ◌⊎◌, Bool, true, false, Option, none, some, List, [], ◌∷◌,
  length, arith,
}
use wire_rs.Transport.Framing.{Packet, packet, signal, decoding_failed, stopped}
use wire_rs.Transport.Outbound.{
  Outbound, Output, Result, ok, err, is_bound, finish_receive, Interference,
}
use wire_rs.Transport.Outbound.Others.{Action, acts, IsPassive, acts-IsPassive}
use wire_rs.Transport.Outbound
use wire_rs.Transport.Fault.{blocked, exhausted, is_present}
use wire_rs.Transport.Handshake.{Crypto}
use wire_rs.Transport.Server.{
  Server, connected, disconnected, message, Received, event, fault, notify_dropped, end_session,
  new_session, Shaken, agreed, fails, declines, greet, shake, handshake, Pass, returns, continues,
  pass, pass_at, proceed, recv_loop, recv, after_handshake, on_read, met_after,
}

-- The caller's view: the context of the session that it was told of, and none outside a session. A
-- report that does not fit the view has no next view.
abbrev pub watch : Option ℕ → Received → Option (Option ℕ)
watch m (fault f) = some m
watch none (event (connected c)) = some (some c)
watch (some d) (event (connected c)) = none
watch none (event disconnected) = none
watch (some d) (event disconnected) = some none
watch none (event (message bytes)) = none
watch (some d) (event (message bytes)) = some (some d)

pub record IsServer (c : ℕ) (s : Server) : Type 0 where
  pub paired : is_present s.receiver ≡ is_present s.sealer
  pub idle : is_present s.handshake_deadline ≡ true → s.sealer ≡ none
  pub current : is_bound c s.outbound.binding ≡ true → s.sealer ≡ some c
  pub allocated : s.sealer ≡ some c → c < s.contexts

-- What a handshake leaves as it is.
record Keeps (s t : Server) : Type 0 where
  receiver : t.receiver ≡ s.receiver
  sealer : t.sealer ≡ s.sealer
  deadline : t.handshake_deadline ≡ s.handshake_deadline
  contexts : t.contexts ≡ s.contexts
  binding : t.outbound.binding ≡ s.outbound.binding
  reads : t.reads ≡ s.reads

record Shakes (rest : List Packet) (s : Server) (r : Server × Shaken) : Type 0 where
  receiver : r.0.receiver ≡ s.receiver
  sealer : r.0.sealer ≡ s.sealer
  deadline : r.0.handshake_deadline ≡ s.handshake_deadline
  contexts : r.0.contexts ≡ s.contexts
  binding : r.0.outbound.binding ≡ s.outbound.binding
  reads : (r.1 ≡ fails blocked) ⊎ (length r.0.reads < length rest)
  ends : r.1 ≢ fails exhausted
  waits : r.1 ≡ fails blocked → (r.0.reads ≡ []) ⊎ (r.0.offers ≡ [])

module _ (crypto : Crypto) (encode : List ℕ → List ℕ) (encode_buffer : ℕ → ℕ) where
  greet-Keeps :
      (bytes : List ℕ) (s : Server) → Keeps s (greet crypto encode encode_buffer bytes s).0
  unfolding greet Outbound.send_packet Outbound.notify_failure
  greet-Keeps bytes s = ground arith

  greet-ends :
      (bytes : List ℕ) (s : Server)
      → ((greet crypto encode encode_buffer bytes s).1 ≢ declines exhausted)
        × ((greet crypto encode encode_buffer bytes s).1 ≡ declines blocked
            → (greet crypto encode encode_buffer bytes s).0.offers ≡ [])
  unfolding greet Outbound.send_packet Outbound.notify_failure
  greet-ends bytes s = ground arith

  shake-Shakes :
      (reads : List Packet) (s : Server)
      → Shakes reads s (shake crypto encode encode_buffer reads s)
  unfolding shake
  shake-Shakes [] s = ground arith
  shake-Shakes (signal ∷ rest) s = ground (arith, shake-Shakes rest s)
  shake-Shakes (decoding_failed ∷ rest) s = ground arith
  shake-Shakes (stopped g ∷ rest) s = ground arith
  shake-Shakes (packet bytes ∷ []) s = ground (arith, greet-Keeps bytes s, greet-ends bytes s)
  shake-Shakes (packet bytes ∷ signal ∷ rest) s = ground (
    arith,
    greet-Keeps bytes s,
    greet-ends bytes s,
    shake-Shakes rest (greet crypto encode encode_buffer bytes s).0,
  )
  shake-Shakes (packet bytes ∷ decoding_failed ∷ rest) s =
      ground (arith, greet-Keeps bytes s, greet-ends bytes s)
  shake-Shakes (packet bytes ∷ stopped g ∷ rest) s =
      ground (arith, greet-Keeps bytes s, greet-ends bytes s)
  shake-Shakes (packet bytes ∷ packet ack ∷ rest) s =
      ground (arith, greet-Keeps bytes s, greet-ends bytes s)

  handshake-Shakes :
      (s : Server)
      → Shakes s.reads
          (record s { outbound = Outbound.unbind s.outbound })
          (handshake crypto encode encode_buffer s)
  unfolding handshake
  handshake-Shakes s = shake-Shakes s.reads (record s { outbound = Outbound.unbind s.outbound })

abbrev pub is_message : Received → Bool
is_message (event (message bytes)) = true
is_message (event (connected c)) = false
is_message (event disconnected) = false
is_message (fault f) = false

-- What the loop of a call that starts in `s` reports as `r` in `t`.
record Finds (c : ℕ) (s t : Server) (r : Received) : Type 0 where
  viewed : watch s.sealer r ≡ some t.sealer
  kept : IsServer c t
  live : is_message r ≡ true → t.sealer ≡ some c → is_bound c t.outbound.binding ≡ true
  ended : r ≢ fault exhausted
  waits : r ≡ fault blocked → (t.reads ≡ []) ⊎ (t.offers ≡ [])

-- A call that starts in `s` and reports `r` in `t`. `accepted` is the outbound side as the message was
-- accepted; only what the other threads do until the call returns comes after that.
pub record Reports (others : Interference) (c : ℕ) (s t : Server) (r : Received) : Type 0 where
  pub viewed : watch s.sealer r ≡ some t.sealer
  pub kept : IsServer c t
  pub accepted : Outbound
  pub returned : t.outbound ≡ others.after (length t.reads) accepted
  pub live : is_message r ≡ true → t.sealer ≡ some c → is_bound c accepted.binding ≡ true
  pub ended : r ≢ fault exhausted
  pub waits : r ≡ fault blocked → (t.reads ≡ []) ⊎ (t.offers ≡ [])

met_after-Reports :
    (others : Interference) (c : ℕ) (s t : Server) (r : Received)
    → IsPassive c others
    → Finds c s t r
    → Reports others c s (met_after others.after (t, r)).0 r
met_after-Reports others c s t r p v = record {
  viewed = v.viewed;
  kept = ground (arith, p.returning (length t.reads) t.outbound);
  accepted = t.outbound;
  returned = refl;
  live = v.live;
  ended = v.ended;
  waits = v.waits;
}

abbrev Passes : ℕ → Server → Pass → Type 0
Passes c s (returns t r) = Finds c s t r
Passes c s (continues t) = (t.sealer ≡ s.sealer) × IsServer c t × (length t.reads < length s.reads)

module _ (crypto : Crypto) (encode : List ℕ → List ℕ) (encode_buffer : ℕ → ℕ)
    (unseal : ℕ → List ℕ → Option (List ℕ × ℕ)) (checked_add : ℕ → ℕ → Option ℕ)
    (others : Interference) where
  after_handshake-Passes :
      (c deadline now : ℕ) (s : Server) (r : Server × Shaken)
      → IsServer c s
      → s.handshake_deadline ≡ some now
      → Shakes s.reads
          (record s { handshake_deadline = none; outbound = Outbound.unbind s.outbound })
          r
      → r.0.outbound.binding ≡ none
      → Passes c s
          (after_handshake crypto encode encode_buffer unseal checked_add others deadline r)
  unfolding notify_dropped new_session Outbound.bind Outbound.send_dropped Outbound.unbind
  after_handshake-Passes c deadline now s (t, agreed a b) v e h u = ground arith
  after_handshake-Passes c deadline now s (t, fails f) v e h u = ground arith

  on_read-Passes :
      (c : ℕ) (reads : List Packet) (s : Server)
      → reads ≡ s.reads
      → s.handshake_deadline ≡ none
      → IsPassive c others
      → IsServer c s
      → Passes c s (on_read crypto encode encode_buffer unseal checked_add others reads s)
  unfolding notify_dropped end_session finish_receive Outbound.end Outbound.send_dropped
      Outbound.unbind
  on_read-Passes c [] s r e p v = ground (arith, p.reading 0 s.outbound)
  on_read-Passes c (packet bytes ∷ rest) s r e p v =
      ground (arith, p.reading (length rest) s.outbound)
  on_read-Passes c (signal ∷ rest) s r e p v = ground (arith, p.reading (length rest) s.outbound)
  on_read-Passes c (decoding_failed ∷ rest) s r e p v =
      ground (arith, p.reading (length rest) s.outbound)
  on_read-Passes c (stopped g ∷ rest) s r e p v = ground (arith, p.reading (length rest) s.outbound)

  pass_at-Passes :
      (c : ℕ) (s : Server) (d : Option ℕ)
      → s.handshake_deadline ≡ d
      → IsPassive c others
      → IsServer c s
      → Passes c s (pass_at crypto encode encode_buffer unseal checked_add others d s)
  unfolding Outbound.unbind
  pass_at-Passes c s none e p v = on_read-Passes c s.reads s refl e p v
  pass_at-Passes c s (some now) e p v =
      let t : Server = record s { handshake_deadline = none } in
      let h = handshake-Shakes crypto encode encode_buffer t in
      after_handshake-Passes c now now s (handshake crypto encode encode_buffer t) v e h h.binding

  proceed-Finds :
      (c fuel : ℕ) (s : Server) (p : Pass) (go : Server → Server × Received)
      → length s.reads < suc fuel
      → Passes c s p
      → ((t : Server) → length t.reads < fuel → IsServer c t → Finds c t (go t).0 (go t).1)
      → Finds c s
          (proceed crypto encode encode_buffer unseal checked_add others p go).0
          (proceed crypto encode encode_buffer unseal checked_add others p go).1
  proceed-Finds c fuel s (returns t r) go l h f = h
  proceed-Finds c fuel s (continues t) go l h f = ground (arith, f t)

  recv_loop-Finds :
      (c fuel : ℕ) (s : Server)
      → IsPassive c others
      → length s.reads < fuel
      → IsServer c s
      → Finds c s
          (recv_loop crypto encode encode_buffer unseal checked_add others fuel s).0
          (recv_loop crypto encode encode_buffer unseal checked_add others fuel s).1
  unfolding recv_loop pass
  recv_loop-Finds c zero s p l v = ground arith
  recv_loop-Finds c (suc fuel) s p l v =
      proceed-Finds c fuel s (pass crypto encode encode_buffer unseal checked_add others s)
        (λ s'. recv_loop crypto encode encode_buffer unseal checked_add others fuel s') l
        (pass_at-Passes c s s.handshake_deadline refl p v) (λ t. recv_loop-Finds c fuel t p)

module _ (crypto : Crypto) (encode : List ℕ → List ℕ) (encode_buffer : ℕ → ℕ)
    (unseal : ℕ → List ℕ → Option (List ℕ × ℕ)) (checked_add : ℕ → ℕ → Option ℕ)
    (during after : ℕ → List Action) where
  abbrev threads : Interference
  threads = acts encode encode_buffer during after

  -- Whatever other threads send and disconnect meanwhile, a call of the server's `recv` reports
  -- what fits the caller's view, which is then the session of the server: `connected` only outside
  -- a session, `disconnected` and a message only inside one. A message is accepted only while its
  -- session is the current one of the outbound side; only what other threads do until the call
  -- returns comes after that. The fuel is enough, and the call waits only where the reader has
  -- nothing left or nothing is given to a handshake. The invariant of the server holds again.
  pub recv-Reports :
      (c : ℕ) (s : Server)
      → IsServer c s
      → Reports threads c s
          (recv crypto encode encode_buffer unseal checked_add threads s).0
          (recv crypto encode encode_buffer unseal checked_add threads s).1
  unfolding recv
  recv-Reports c s v =
      let p = acts-IsPassive encode encode_buffer during after c in
      met_after-Reports threads c s _ _ p (
        recv_loop-Finds crypto encode encode_buffer unseal checked_add threads c
          (suc (length s.reads)) s p (ground arith) v)
