-- ===== src/Transport/Closer/Shutdown.antt =====
-- The threads that close a stream and use its adapters: src/transport/stream.rs.
use wire_rs.Base.{ℕ, suc, ◌+◌, ◌≡◌, ◌≢◌, true, none, some, arith}
use wire_rs.Transport.Closer.{
  State, Phase, open_phase, closing, closed, returned, waits, takes_action, panicked, new_state,
  begin_close, finish_close, enter, leave,
}

-- A stream with its threads: the adapter calls that hold an `Activity`, the closers that run the
-- callback, those that wait for the adapter calls after it, and how often the callback has run.
pub record Threads : Type 0 where
  pub state : State
  pub admitted : ℕ
  pub running : ℕ
  pub draining : ℕ
  pub shutdowns : ℕ

abbrev pub start : Threads
start = record { state = new_state; admitted = 0; running = 0; draining = 0; shutdowns = 0 }

pub data Step (t : Threads) : Threads → Type 0 where
  begins :
      (begin_close t.state).1 ≡ takes_action
      → Step t (record t { state = (begin_close t.state).0; running = suc t.running })
  runs :
      (n : ℕ)
      → t.running ≡ suc n
      → Step t (record t { running = n; draining = suc t.draining; shutdowns = suc t.shutdowns })
  finishes :
      (n : ℕ)
      → t.draining ≡ suc n
      → (finish_close t.state).1 ≡ returned
      → Step t (record t { state = (finish_close t.state).0; draining = n })
  enters :
      (s : State)
      → enter t.state ≡ some s
      → Step t (record t { state = s; admitted = suc t.admitted })
  leaves :
      (n : ℕ) (s : State)
      → t.admitted ≡ suc n
      → leave t.state ≡ some s
      → Step t (record t { state = s; admitted = n })

pub data Reach : Threads → Type 0 where
  here : Reach start
  next : {t u : Threads} → Reach t → Step t u → Reach u

abbrev Counts : Phase → Threads → Type 0
Counts open_phase t = (t.state.action ≡ true) × (t.running + t.draining ≡ 0) × (t.shutdowns ≡ 0)
Counts closing t = (t.running + t.draining ≡ 1) × (t.shutdowns ≡ t.draining)
Counts closed t = (t.running + t.draining ≡ 0) × (t.shutdowns ≡ 1) × (t.admitted ≡ 0)

pub record IsShutdown (t : Threads) : Type 0 where
  pub accounted : t.state.active ≡ t.admitted
  pub phased : Counts t.state.phase t

Step-IsShutdown : {t u : Threads} → Step t u → IsShutdown t → IsShutdown u
unfolding begin_close finish_close enter leave
Step-IsShutdown {t} (begins e) v = ground arith
Step-IsShutdown {t} (runs n e) v = ground arith
Step-IsShutdown {t} (finishes n e f) v = ground arith
Step-IsShutdown {t} (enters s e) v = ground arith
Step-IsShutdown {t} (leaves n s e f) v = ground arith

pub Reach-IsShutdown : (t : Threads) → Reach t → IsShutdown t
Reach-IsShutdown t here = ground arith
Reach-IsShutdown t (next r st) = Step-IsShutdown st (Reach-IsShutdown _ r)

-- When any call of `close` returns, the shutdown callback has run exactly once, and no adapter call is
-- under way.
pub close-returned :
    (t : Threads)
    → Reach t
    → (begin_close t.state).1 ≡ returned
    → (t.shutdowns ≡ 1) × (t.admitted ≡ 0) × (t.running + t.draining ≡ 0)
unfolding begin_close
close-returned t r e = ground (arith, Reach-IsShutdown t r)

-- Whatever the threads did, a call of `close` does not panic for a callback that is gone.
pub close-no_panic : (t : Threads) → Reach t → (begin_close t.state).1 ≢ panicked
unfolding begin_close
close-no_panic t r = ground (arith, Reach-IsShutdown t r)

-- While an admitted adapter call is under way, taking it out of the count does not overflow.
pub leave-no_panic : (t : Threads) → Reach t → t.admitted ≢ 0 → leave t.state ≢ none
unfolding leave
leave-no_panic t r n = ground (arith, Reach-IsShutdown t r)

-- Where a call of `close` waits, nobody runs the callback any more and no adapter call is under way,
-- exactly one closer is still to finish the shutdown, and its next turn does.
pub close-progress :
    (t : Threads)
    → Reach t
    → (begin_close t.state).1 ≡ waits
    → t.running ≡ 0
    → t.admitted ≡ 0
    → (t.draining ≡ 1) × ((finish_close t.state).1 ≡ returned)
unfolding begin_close finish_close
close-progress t r e n a = ground (arith, Reach-IsShutdown t r)
