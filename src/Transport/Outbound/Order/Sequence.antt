-- ===== src/Transport/Outbound/Order/Sequence.antt =====
-- In which order, and for how long, the packets of a context are sent (src/transport/sender.rs,
-- src/transport/outbound.rs).
use wire_rs.Base.{
  ℕ, suc, ◌+◌, ◌<◌, ◌≤◌, ◌≡◌, refl, true, false, Option, none, some, List, [], ◌∷◌, arith, ◌==◌,
  if◌then◌else◌,
}
use wire_rs.Transport.Outbound.{
  Outbound, Output, Result, ok, err, refused, packet_too_large, unsent, is_bound, bind, unbind, end,
  disconnect, send_reset, send_dropped, send_packet, send,
}
use wire_rs.Transport.Outbound.Sealing.{seal}
use wire_rs.Transport.Outbound.Order.{
  Senders, Numbered, begun, begin_send, finish_send, Step, begins, acquires, finishes, binds,
  unbinds, ends, disconnects, resets, drops, sends,
}

-- How many packets of context `c` were sent.
abbrev pub count_of : ℕ → List Numbered → ℕ
count_of c [] = 0
count_of c ((d, n, p) ∷ l) = if d == c then suc (count_of c l) else count_of c l

-- The packets of context `c` were sent under the sequence numbers 0, 1, 2 and so on, in this order.
abbrev pub IsInOrder : ℕ → List Numbered → Type 0
IsInOrder c [] = Unit {0}
IsInOrder c ((d, n, p) ∷ l) = (d ≡ c → n ≡ count_of c l) × IsInOrder c l

abbrev waiting_one : Option (List ℕ) → ℕ
waiting_one none = 0
waiting_one (some p) = 1

abbrev current_one : ℕ → Option Numbered → ℕ
current_one c none = 0
current_one c (some (d, n, p)) = if d == c then 1 else 0

abbrev NumberedAs : ℕ → Senders → Option Numbered → Type 0
NumberedAs c s none = Unit {0}
NumberedAs c s (some (d, n, p)) = d ≡ c → n + 1 + waiting_one (s.pending c) ≡ s.sealed c

pub record IsSequenced (c : ℕ) (s : Senders) : Type 0 where
  pub in_order : IsInOrder c s.log
  pub bound :
      is_bound c s.out.binding ≡ true
      → count_of c s.log + current_one c s.writing + waiting_one (s.pending c) ≡ s.sealed c
  pub old : is_bound c s.out.binding ≡ true → c < s.contexts
  pub numbered : NumberedAs c s s.writing
  pub begun : waiting_one (s.pending c) ≤ s.sealed c
  pub unused :
      s.contexts ≤ c
      → (count_of c s.log ≡ 0)
        × (current_one c s.writing ≡ 0)
        × (waiting_one (s.pending c) ≡ 0)
        × (s.sealed c ≡ 0)

-- A failed or refused send removes the binding or leaves it; a successful one keeps it.
binding-send :
    (encode : List ℕ → List ℕ) (encode_buffer : ℕ → ℕ) (c d : ℕ) (packet : List ℕ)
    (out again : Output) (o : Outbound)
    → is_bound c (send encode encode_buffer d packet out again o).0.binding ≡ true
    → is_bound c o.binding ≡ true
unfolding send
binding-send encode encode_buffer c d packet out again o h = ground arith

logged-send :
    (encode : List ℕ → List ℕ) (encode_buffer : ℕ → ℕ) (d : ℕ) (packet : List ℕ)
    (out again : Output) (o : Outbound)
    → (send encode encode_buffer d packet out again o).1 ≡ ok tt
    → is_bound d o.binding ≡ true
unfolding send
logged-send encode encode_buffer d packet out again o h = ground arith

-- Beginning a send changes no more than the context's sequence and what waits for the writer.
begun-unsent :
    (d : ℕ) (s : Senders) (r : Option (Result (List ℕ)))
    → ((begun d s r).0.out ≡ s.out)
      × ((begun d s r).0.log ≡ s.log)
      × ((begun d s r).0.contexts ≡ s.contexts)
begun-unsent d s none = (refl, refl, refl)
begun-unsent d s (some (ok packet)) = (refl, refl, refl)
begun-unsent d s (some (err refused)) = (refl, refl, refl)
begun-unsent d s (some (err (packet_too_large n))) = (refl, refl, refl)
begun-unsent d s (some (err (unsent e))) = (refl, refl, refl)

module _ (cipher : ℕ → ℕ → List ℕ → Option (List ℕ)) (encode : List ℕ → List ℕ)
    (encode_buffer : ℕ → ℕ) where
  -- Where the step ends a send of context `c`: the output is as it was, so nothing was written.
  abbrev pub Unsent : ℕ → {s t : Senders} → Step cipher encode encode_buffer s t → Type 0
  Unsent c {s} {t} (finishes d n p out again e) = d ≡ c → t.out ≡ s.out
  Unsent c (begins d m h f) = Unit {0}
  Unsent c (acquires d p e f) = Unit {0}
  Unsent c (binds f) = Unit {0}
  Unsent c (unbinds f) = Unit {0}
  Unsent c (ends d f) = Unit {0}
  Unsent c (disconnects d out f) = Unit {0}
  Unsent c (resets out f) = Unit {0}
  Unsent c (drops out f) = Unit {0}
  Unsent c (sends p out again f) = Unit {0}

  stale-Unsent :
      {s t : Senders} (c : ℕ) (st : Step cipher encode encode_buffer s t)
      → is_bound c s.out.binding ≡ false
      → Unsent c st
  unfolding finish_send send
  stale-Unsent c (finishes d n p out again e) b = λ q. ground arith
  stale-Unsent c (begins d m h f) b = tt
  stale-Unsent c (acquires d p e f) b = tt
  stale-Unsent c (binds f) b = tt
  stale-Unsent c (unbinds f) b = tt
  stale-Unsent c (ends d f) b = tt
  stale-Unsent c (disconnects d out f) b = tt
  stale-Unsent c (resets out f) b = tt
  stale-Unsent c (drops out f) b = tt
  stale-Unsent c (sends p out again f) b = tt

  stale-uncounted :
      {s t : Senders} (c : ℕ)
      → Step cipher encode encode_buffer s t
      → c < s.contexts
      → is_bound c s.out.binding ≡ false
      → (is_bound c t.out.binding ≡ false)
        × (count_of c t.log ≡ count_of c s.log)
        × (c < t.contexts)
  unfolding bind unbind end disconnect send_reset send_dropped send_packet finish_send begin_send
  stale-uncounted {s} c (begins d m h f) o b =
      ground (arith, begun-unsent d s (seal encode_buffer (cipher d (s.sealed d)) m))
  stale-uncounted {s} c (acquires d p e f) o b = ground arith
  stale-uncounted {s} c (finishes d n p out again e) o b = ground (
    arith,
    binding-send encode encode_buffer c d p out again s.out,
    logged-send encode encode_buffer d p out again s.out,
  )
  stale-uncounted {s} c (binds f) o b = ground arith
  stale-uncounted {s} c (unbinds f) o b = ground arith
  stale-uncounted {s} c (ends d f) o b = ground arith
  stale-uncounted {s} c (disconnects d out f) o b = ground arith
  stale-uncounted {s} c (resets out f) o b = ground arith
  stale-uncounted {s} c (drops out f) o b = ground arith
  stale-uncounted {s} c (sends p out again f) o b = ground arith

  -- Once the session of a context has ended, no step sends another of its packets or makes its
  -- session current again: the end of such a send writes nothing and leaves the output as it was.
  pub Step-stale :
      {s t : Senders} (c : ℕ) (st : Step cipher encode encode_buffer s t)
      → c < s.contexts
      → is_bound c s.out.binding ≡ false
      → Unsent c st
        × (is_bound c t.out.binding ≡ false)
        × (count_of c t.log ≡ count_of c s.log)
        × (c < t.contexts)
  Step-stale c st h b =
      let (ended, uncounted, old) = stale-uncounted c st h b in
      (stale-Unsent c st b, ended, uncounted, old)
