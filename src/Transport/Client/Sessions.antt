-- ===== src/Transport/Client/Sessions.antt =====
-- The session that `connect` and `recv` of src/transport/client.rs leave.
use wire_rs.Base.{
  ℕ, suc, ◌<◌, ◌≡◌, ◌≢◌, true, false, Option, none, some, List, [], ◌∷◌, refl, length, arith,
}
use wire_rs.Transport.Framing.{Packet}
use wire_rs.Transport.Outbound.{Outbound, Output, Result, ok, err, is_bound, finish_receive, Side}
use wire_rs.Transport.Outbound.{Interference}
use wire_rs.Transport.Outbound.Others.{Action, acts, IsPassive, acts-IsPassive}
use wire_rs.Transport.Outbound
use wire_rs.Transport.Fault.{blocked, is_present, Attempt, done, failed}
use wire_rs.Transport.Handshake.{Crypto}
use wire_rs.Transport.Client.{
  Client, Draw, Call, continued, ◌>>=◌, ◌>>◌, give, end_session, new_session, reset, recv,
  recv_with, on_read, on_packet, met_after, post, await_reply, authenticate, connect, encoded,
  hello_of,
}

pub record IsClient (d : ℕ) (c : Client) : Type 0 where
  pub paired : is_present c.receiver ≡ is_present c.sealer
  pub current : is_bound d c.outbound.binding ≡ true → c.sealer ≡ some d
  pub allocated : c.sealer ≡ some d → d < c.contexts

-- No session, with `k` contexts allocated so far, and context `d` not bound.
pub record IsIdle (d k : ℕ) (c : Client) : Type 0 where
  pub receiving : c.receiver ≡ none
  pub sending : c.sealer ≡ none
  pub unbound : is_bound d c.outbound.binding ≡ false
  pub allocations : c.contexts ≡ k

-- A session of context `k`.
pub record IsLive (k : ℕ) (c : Client) : Type 0 where
  pub receiving : is_present c.receiver ≡ true
  pub sending : c.sealer ≡ some k
  pub binding : c.outbound.binding ≡ some k
  pub allocations : c.contexts ≡ suc k

abbrev pub Connects : {Info : Type 0} → ℕ → ℕ → Client × Attempt (ℕ × Info) → Type 0
Connects d k (c, failed f) = IsIdle d k c
Connects d k (c, done (sender, info)) = (sender ≡ k) × IsLive k c

record Keeps {A : Type 0} (d k : ℕ) (m : Call A) : Type 0 where
  idle : (c : Client) → IsIdle d k c → IsIdle d k (m c).0

record Ends {Info : Type 0} (d k : ℕ) (m : Call (ℕ × Info)) : Type 0 where
  connects : (c : Client) → IsIdle d k c → Connects d k (m c)

continued-Connects :
    {A Info : Type 0} (d k : ℕ) (r : Client × Attempt A) (go : A → Call (ℕ × Info))
    → IsIdle d k r.0
    → ((a : A) → Ends d k (go a))
    → Connects d k (continued r go)
continued-Connects d k (c, done a) go i f = (f a).connects c i
continued-Connects d k (c, failed e) go i f = i

bind-Ends :
    {A Info : Type 0} {d k : ℕ} {m : Call A} {go : A → Call (ℕ × Info)}
    → Keeps d k m
    → ((a : A) → Ends d k (go a))
    → Ends d k (m >>= go)
bind-Ends {d} {k} {m} {go} h f = record {
  connects = λ c i. continued-Connects d k (m c) go (h.idle c i) f;
}

give-Keeps : {A : Type 0} (d k : ℕ) (a : Attempt A) → Keeps d k (give a)
give-Keeps d k a = record { idle = λ c i. i }

reset-IsIdle : (d : ℕ) (c : Client) → IsIdle d c.contexts (reset c).0
unfolding reset Outbound.send_reset Outbound.unbind
reset-IsIdle d c = ground arith

module _ (crypto : Crypto) (encode : List ℕ → List ℕ) (encode_buffer : ℕ → ℕ) where
  post-Keeps : (d k : ℕ) (bytes : List ℕ) → Keeps d k (post crypto encode encode_buffer bytes)
  unfolding post Outbound.send_packet Outbound.notify_failure
  post-Keeps d k bytes = record { idle = λ c i. ground arith }

  await_reply-Keeps : (d k key : ℕ) → Keeps d k (await_reply crypto encode encode_buffer key)
  unfolding await_reply
  await_reply-Keeps d k key = record { idle = λ c i. ground arith }

  module _ (Info : Type 0) (verifier : List ℕ → ℕ → Option (ℕ × Info)) where
    authenticate-Keeps :
        (d k : ℕ) (draw : Draw) (bytes : List ℕ)
        → Keeps d k (authenticate crypto encode encode_buffer Info verifier draw bytes)
    unfolding authenticate
    authenticate-Keeps d k draw bytes = record { idle = λ c i. ground arith }

    new_session-Ends :
        (d k receiver : ℕ) (info : Info)
        → Ends d k (new_session receiver >>= (λ sender. give (done (sender, info))))
    unfolding new_session Outbound.bind
    new_session-Ends d k receiver info = record { connects = λ c i. ground arith }

    encoded-Connects :
        (d : ℕ) (hello : Option (List ℕ)) (c : Client) (go : List ℕ → Call (ℕ × Info))
        → IsClient d c
        → ((bytes : List ℕ) → Ends d c.contexts (go bytes))
        → Connects d c.contexts
            (continued (encoded crypto encode encode_buffer hello c) (λ bytes. reset >> go bytes))
    unfolding end_session Outbound.end
    encoded-Connects d none c go v f = ground arith
    encoded-Connects d (some bytes) c go v f =
        continued-Connects d c.contexts (reset c) (λ a. go bytes) (reset-IsIdle d c) (λ a. f bytes)

    -- `connect` either fails and leaves no session, and no earlier context is bound any more, at whatever
    -- step it fails; or it succeeds, and the session is that of a new context, which its sender holds.
    pub connect-Connects :
        (d : ℕ) (draw : Draw) (c : Client)
        → IsClient d c
        → Connects d c.contexts (connect crypto encode encode_buffer Info verifier draw c)
    unfolding connect
    connect-Connects d draw c v =
        let k = c.contexts in
        encoded-Connects d (crypto.encode_hello (hello_of crypto encode encode_buffer draw)) c _ v
          (λ hello. bind-Ends (post-Keeps d k hello) (λ a.
            bind-Ends (await_reply-Keeps d k draw.key) (λ bytes.
              bind-Ends (authenticate-Keeps d k draw bytes) (λ reply.
                bind-Ends (give-Keeps d k _) (λ agreed.
                  bind-Ends (post-Keeps d k agreed.2)
                    (λ a. new_session-Ends d k agreed.1 reply.2))))))

-- A call of `recv` that starts in `c`. A message is accepted on the outbound side that the other threads
-- leave while the call reads; only what they do until it returns comes after that.
abbrev pub Receives : Interference → ℕ → Client → Client × Attempt (List ℕ) → Type 0
Receives others d c (t, done bytes) =
    IsClient d t
    × (t.sealer ≡ c.sealer)
    × (is_present t.sealer ≡ true)
    × (c.sealer ≡ some d → is_bound d (others.during (length t.reads) c.outbound).binding ≡ true)
    × (t.outbound ≡ others.after (length t.reads) (others.during (length t.reads) c.outbound))
Receives others d c (t, failed f) =
    IsClient d t
    × (f ≢ blocked
        → (t.receiver ≡ none) × (t.sealer ≡ none) × (is_bound d t.outbound.binding ≡ false))
    × (c.receiver ≡ none → t ≡ c)

-- What a packet leaves before the call returns.
abbrev Takes : ℕ → Client → Client × Attempt (List ℕ) → Type 0
Takes d c (t, done bytes) =
    IsClient d t
    × (t.sealer ≡ c.sealer)
    × (is_present t.sealer ≡ true)
    × (c.sealer ≡ some d → is_bound d c.outbound.binding ≡ true)
    × (t.outbound ≡ c.outbound)
    × (t.reads ≡ c.reads)
Takes d c (t, failed f) =
    IsClient d t × (t.receiver ≡ none) × (t.sealer ≡ none) × (is_bound d t.outbound.binding ≡ false)

on_packet-Takes :
    (unseal : ℕ → List ℕ → Option (List ℕ × ℕ)) (others : Interference) (d receiver : ℕ)
    (p : Packet) (c : Client)
    → c.receiver ≡ some receiver
    → IsClient d c
    → Takes d c (on_packet unseal others p receiver c)
unfolding end_session finish_receive Outbound.end
on_packet-Takes unseal others d receiver p c e v = ground arith

-- The other threads act between the packet and the return.
met_after-Receives :
    (others : Interference) (d : ℕ) (rest : List Packet) (c : Client)
    (r : Client × Attempt (List ℕ))
    → IsPassive d others
    → c.receiver ≢ none
    → Takes d (record c { reads = rest; outbound = others.during (length rest) c.outbound }) r
    → Receives others d c (met_after (others.after (length rest)) r)
met_after-Receives others d rest c (t, done bytes) p n w =
    ground (arith, p.returning (length rest) t.outbound)
met_after-Receives others d rest c (t, failed f) p n w =
    ground (arith, p.returning (length rest) t.outbound)

on_read-Receives :
    (unseal : ℕ → List ℕ → Option (List ℕ × ℕ)) (others : Interference) (d receiver : ℕ)
    (reads : List Packet) (c : Client)
    → IsPassive d others
    → reads ≡ c.reads
    → c.receiver ≡ some receiver
    → IsClient d c
    → Receives others d c (on_read unseal others reads receiver c)
on_read-Receives unseal others d receiver [] c p r e v = ground (arith, p.reading 0 c.outbound)
on_read-Receives unseal others d receiver (x ∷ rest) c p r e v =
    met_after-Receives others d rest c _ p (ground arith) (
      on_packet-Takes unseal others d receiver x
        (record c { reads = rest; outbound = others.during (length rest) c.outbound }) e
        (ground (arith, p.reading (length rest) c.outbound)))

recv_with-Receives :
    (unseal : ℕ → List ℕ → Option (List ℕ × ℕ)) (others : Interference) (d : ℕ)
    (receiver : Option ℕ) (c : Client)
    → c.receiver ≡ receiver
    → IsPassive d others
    → IsClient d c
    → Receives others d c (recv_with unseal others receiver c)
recv_with-Receives unseal others d none c e p v = ground arith
recv_with-Receives unseal others d (some receiver) c e p v =
    on_read-Receives unseal others d receiver c.reads c p refl e v

-- Whatever other threads send and disconnect meanwhile, the client's `recv` accepts a message only
-- inside a session that is still current as the message is accepted, and that session's contexts
-- stay; only what other threads do until the call returns comes after that. Any failure ends the
-- session, its binding included, unless the call still waits; and without a session nothing is
-- read. The invariant of the client holds again.
pub recv-Receives :
    (encode : List ℕ → List ℕ) (encode_buffer : ℕ → ℕ) (unseal : ℕ → List ℕ → Option (List ℕ × ℕ))
    (during after : ℕ → List Action) (d : ℕ) (c : Client)
    → IsClient d c
    → Receives
        (acts encode encode_buffer during after)
        d
        c
        (recv unseal (acts encode encode_buffer during after) c)
unfolding recv
recv-Receives encode encode_buffer unseal during after d c v =
    recv_with-Receives unseal _ d c.receiver c refl
      (acts-IsPassive encode encode_buffer during after d) v
