-- ===== src/Transport/Outbound/Order/Sealed.antt =====
-- Under which sequence number each packet of src/transport/sender.rs was sealed.
use wire_rs.Base.{ℕ, ◌-◌, ◌≡◌, refl, subst, Option, none, some, List, [], ◌∷◌, arith}
use native.Mathlib.Decide.{ℕ_discrete}
use wire_rs.Transport.Outbound.{Side, Result, ok, err, refused, packet_too_large, unsent}
use wire_rs.Transport.Outbound.Sealing.{seal}
use wire_rs.Transport.Outbound.Order.{
  Senders, Numbered, logged, begun, begin_send, finish_send, Step, begins, acquires, finishes,
  binds, unbinds, ends, disconnects, resets, drops, sends, Reach, here, next,
}

module _ (cipher : ℕ → ℕ → List ℕ → Option (List ℕ)) (encode : List ℕ → List ℕ)
    (encode_buffer : ℕ → ℕ) where
  -- The packet is a message that context `c` sealed under the sequence number `n`.
  pub record SealedAs (c n : ℕ) (packet : List ℕ) : Type 0 where
    pub message : List ℕ
    pub made : seal encode_buffer (cipher c n) message ≡ some (ok packet)

  abbrev pub AllSealed : List Numbered → Type 0
  AllSealed [] = Unit {0}
  AllSealed ((c, n, packet) ∷ l) = SealedAs c n packet × AllSealed l

  abbrev pub WritingSealed : Option Numbered → Type 0
  WritingSealed none = Unit {0}
  WritingSealed (some (c, n, packet)) = SealedAs c n packet

  -- Each packet, sent, being written or waiting, was sealed by its context under its number.
  pub record IsSealed (s : Senders) : Type 0 where
    pub sent : AllSealed s.log
    pub written : WritingSealed s.writing
    pub waiting :
        (c : ℕ) (packet : List ℕ) → s.pending c ≡ some packet → SealedAs c (s.sealed c - 1) packet

  begun-IsSealed :
      (d : ℕ) (m : List ℕ) (s : Senders) (r : Option (Result (List ℕ)))
      → seal encode_buffer (cipher d (s.sealed d)) m ≡ r
      → IsSealed s
      → IsSealed (begun d s r).0
  begun-IsSealed d m s none e v = v
  begun-IsSealed d m s (some (ok packet)) e v = record {
    sent = v.sent;
    written = v.written;
    waiting = λ c p h. elim (ℕ_discrete d c) [
      | yes q ↦ record { message = m; made = ground arith }
      | no n ↦
          subst (λ k. SealedAs c (k - 1) p) (ground (arith, n)) (v.waiting c p (ground (arith, n)))
    ];
  }
  begun-IsSealed d m s (some (err refused)) e v = v
  begun-IsSealed d m s (some (err (packet_too_large n))) e v = v
  begun-IsSealed d m s (some (err (unsent x))) e v = v

  logged-AllSealed :
      {A : Type 0} (x : Numbered) (r : Result A) (l : List Numbered)
      → WritingSealed (some x)
      → AllSealed l
      → AllSealed (logged x r l)
  logged-AllSealed x (ok a) l w v = (w, v)
  logged-AllSealed x (err e) l w v = v

  Step-IsSealed : {s t : Senders} → Step cipher encode encode_buffer s t → IsSealed s → IsSealed t
  unfolding begin_send finish_send
  Step-IsSealed {s} (begins d m h f) v = begun-IsSealed d m s _ refl v
  Step-IsSealed {s} (acquires d p e f) v = record {
    sent = v.sent;
    written = v.waiting d p e;
    waiting = λ c q h. v.waiting c q (ground arith);
  }
  Step-IsSealed {s} (finishes d n p out again e) v = record {
    sent = logged-AllSealed (d, n, p) _ s.log (subst WritingSealed e v.written) v.sent;
    written = tt;
    waiting = v.waiting;
  }
  Step-IsSealed (binds f) v = record { sent = v.sent; written = v.written; waiting = v.waiting }
  Step-IsSealed (unbinds f) v = record { sent = v.sent; written = v.written; waiting = v.waiting }
  Step-IsSealed (ends d f) v = record { sent = v.sent; written = v.written; waiting = v.waiting }
  Step-IsSealed (disconnects d out f) v = record {
    sent = v.sent;
    written = v.written;
    waiting = v.waiting;
  }
  Step-IsSealed (resets out f) v = record {
    sent = v.sent;
    written = v.written;
    waiting = v.waiting;
  }
  Step-IsSealed (drops out f) v = record { sent = v.sent; written = v.written; waiting = v.waiting }
  Step-IsSealed (sends p out again f) v = record {
    sent = v.sent;
    written = v.written;
    waiting = v.waiting;
  }

  pub Reach-IsSealed :
      (side : Side) (s : Senders) → Reach cipher encode encode_buffer side s → IsSealed s
  Reach-IsSealed side s here = record {
    sent = tt;
    written = tt;
    waiting = λ c p e. absurd (ground (arith, e));
  }
  Reach-IsSealed side s (next r st) = Step-IsSealed st (Reach-IsSealed side _ r)
