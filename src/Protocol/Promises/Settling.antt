-- ===== src/Protocol/Promises/Settling.antt =====
-- What sending a result does to the ledger's promises.
use wire_rs.Base.{
  ℕ, ◌≡◌, true, false, Option, none, some, arith, get_elem?, ◌==◌, if◌then◌else◌, get_elem?-set,
}
use wire_rs.Protocol.Promises.{
  Promise, ResultSender, Ledger, Outcome, send, notify, drop_promise, wait_result,
}

-- Promise `i` of a ledger, if it has been made.
abbrev pub promise_at : ℕ → Ledger → Option Promise
promise_at i l = get_elem? l.promises i

abbrev pub settled_by : Outcome → Promise → Promise
settled_by r p =
    if p.alive
    then record p { result = some r; done = true; hook = none }
    else record p { hook = none }

abbrev pub map_some {ℓ} : {A : Type ℓ} → (A → A) → Option A → Option A
map_some f none = none
map_some f (some a) = some (f a)

-- A result reaches its own promise and no other.
pub promise_at-send :
    (i : ℕ) (s : ResultSender) (r : Outcome) (l : Ledger)
    → promise_at i (send s r l).0
      ≡ (if s.promise == i then map_some (settled_by r) (promise_at i l) else promise_at i l)
unfolding send
promise_at-send i s r l = grind (arith, get_elem?-set)

abbrev pub dropped : Promise → Promise
dropped p = record p { result = none; alive = false; hook = none }

pub promise_at-drop_promise :
    (i j : ℕ) (l : Ledger)
    → promise_at i (drop_promise j l)
      ≡ (if j == i then map_some dropped (promise_at i l) else promise_at i l)
unfolding drop_promise
promise_at-drop_promise i j l = grind (arith, get_elem?-set)

-- A wait takes the published result and drops the promise.
pub wait_result-drop_promise :
    (j : ℕ) (r : Outcome) (l l' : Ledger) → wait_result j l ≡ some (r, l') → l' ≡ drop_promise j l
unfolding wait_result drop_promise
wait_result-drop_promise j r l l' h = ground arith

abbrev pub notified : ℕ → Promise → Promise
notified callback p =
    if p.done
    then record p { registered = true }
    else record p { registered = true; hook = some callback }

pub promise_at-notify :
    (i j callback : ℕ) (l l' : Ledger)
    → notify j callback l ≡ some l'
    → promise_at i l'
      ≡ (if j == i then map_some (notified callback) (promise_at i l) else promise_at i l)
unfolding notify
promise_at-notify i j callback l l' h = grind (arith, get_elem?-set)
