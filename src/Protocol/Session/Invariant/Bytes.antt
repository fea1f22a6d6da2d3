-- ===== src/Protocol/Session/Invariant/Bytes.antt =====
-- The byte counter of a session against the envelopes that it holds.
use wire_rs.Base.{
  ℕ, zero, suc, ◌+◌, ◌≡◌, subst, true, none, some, List, [], ◌∷◌, ◌++◌, arith, get_elem?, set,
  Option-cases, inl, inr,
}
use wire_rs.Protocol.Errors.{Error}
use wire_rs.Protocol.Promises.{Promise, Ledger, Outcome, Envelope, held, send}
use wire_rs.Protocol.Promises.Settling.{promise_at}
use wire_rs.Protocol.Session.{Operation}
use wire_rs.Protocol.Session.Ending.{fail, fail_all}
use wire_rs.Protocol.Session.Invariant.Operations.{owns, owners}
use wire_rs.Protocol.Session.Invariant.Settling.{Settles, SettlesOnce, Settles-of_eq, send-Settles}

-- The bytes of the results that wait in promises.
abbrev pub unread : List Promise → ℕ
unread [] = 0
unread (p ∷ ps) = held p.result + unread ps

-- The bytes of the requests that wait for the application.
abbrev pub queued : List (ℕ × Envelope) → ℕ
queued [] = 0
queued ((id, e) ∷ rest) = e.charge + queued rest

pub unread-set :
    (ps : List Promise) (i : ℕ) (p v : Promise)
    → get_elem? ps i ≡ some p
    → unread (set ps i v) + held p.result ≡ unread ps + held v.result
unread-set [] i p v h = ground arith
unread-set (x ∷ ps) zero p v h = ground arith
unread-set (x ∷ ps) (suc i) p v h = omega (arith, unread-set ps i p v h)

pub unread-append :
    (ps : List Promise) (p : Promise) → unread (ps ++ (p ∷ [])) ≡ unread ps + held p.result
unread-append [] p = omega arith
unread-append (x ∷ ps) p = omega (arith, unread-append ps p)

pub queued-append :
    (xs : List (ℕ × Envelope)) (id : ℕ) (e : Envelope)
    → queued (xs ++ ((id, e) ∷ [])) ≡ queued xs + e.charge
queued-append [] id e = omega arith
queued-append ((j, x) ∷ xs) id e = omega (arith, queued-append xs id e)

-- `q` bytes are queued, and the counter counts them, the unread results and what was taken out and is
-- not dropped yet.
abbrev pub Counts : ℕ → Ledger → Type 0
Counts q l = l.retained ≡ q + unread l.promises + l.freed

-- A result that an operation sends to its own promise is counted from then on, or released at once.
pub send-Counts :
    (q c : ℕ) (op : Operation) (r : Outcome) (l : Ledger)
    → Settles (promise_at op.sender.promise l) (c + owns op.sender.promise op)
    → l.retained ≡ q + unread l.promises + l.freed + held (some r)
    → Counts q (send op.sender r l).0
unfolding send held
send-Counts q c op r l v h = elim (Option-cases (promise_at op.sender.promise l)) [
  | inl e ↦ ground arith
  | inr (p, e) ↦
      (let alone : SettlesOnce p (c + owns op.sender.promise op) =
          subst (λ o. Settles o (c + owns op.sender.promise op)) e v in
        rw (e, send)
          (ground (
            arith,
            alone,
            unread-set l.promises op.sender.promise p
                (record p { result = some r; done = true; hook = none }) e,
            unread-set l.promises op.sender.promise p (record p { hook = none }) e,
          )))
]

pub fail_all-Counts :
    (q : ℕ) (c : ℕ → ℕ) (ops : List (ℕ × Operation)) (e : Error) (now : ℕ) (l : Ledger)
    → ((i : ℕ) → Settles (promise_at i l) (c i + owners i ops))
    → Counts q l
    → Counts q (fail_all ops e now l)
unfolding fail_all fail held
fail_all-Counts q c [] e now l v h = h
fail_all-Counts q c ((k, op) ∷ ops) e now l v h =
    fail_all-Counts q c ops e now _
      (λ i. send-Settles i (c i + owners i ops) op _ l (Settles-of_eq _ _ _ (omega arith) (v i)))
      (send-Counts q (c op.sender.promise + owners op.sender.promise ops) op _ l
        (Settles-of_eq _ _ _ (omega arith) (v op.sender.promise)) (omega arith))
