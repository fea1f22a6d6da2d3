-- ===== src/Protocol/Promises.antt =====
-- Promises, their senders and their byte charges: src/protocol/promise.rs, with the envelopes and the
-- byte counter of src/protocol/envelope.rs. A promise is an entry of the session's ledger, and a
-- sender names its entry. The callbacks that settling hands over are listed in the order in which
-- `Notifications` runs them.
use wire_rs.Base.{
  ℕ, ◌+◌, ◌-◌, ◌^◌, Bool, true, false, not, ◌&&◌, Option, none, some, List, [], ◌∷◌, ◌++◌, length,
  get_elem?, set, leb, ltb, if◌then◌else◌,
}
use wire_rs.Protocol.Errors.{Error, byte_limit_exceeded}
pub mod Settling

-- `Header`, without the body's name for log lines.
pub record Header : Type 0 where
  pub id : ℕ
  pub failed : Bool
  pub unknown : Bool

-- `IncomingEnvelope`: its encoded bytes, and its `ByteCharge`.
pub record Envelope : Type 0 where
  pub bytes : List ℕ
  pub header : Header
  pub charge : ℕ

-- `Result<PromiseResult, Error>`
pub data Outcome : Type 0 where
  response : Envelope → Outcome
  written : Outcome
  failure : Error → Outcome

-- A promise with its notification state. `alive` says that the receiver still exists; `wants` that it
-- is the promise of a request, which the flag `response` of its sender repeats.
pub record Promise : Type 0 where
  pub wants : Bool
  pub result : Option Outcome
  pub alive : Bool
  pub done : Bool
  pub hook : Option ℕ
  pub registered : Bool

pub record ResultSender : Type 0 where
  pub response : Bool
  pub promise : ℕ

-- `retained` is the byte counter. `freed` are the bytes of the charges that the application, or a close,
-- has taken out of the session or of a promise, and that a thread is still to drop: charges are dropped
-- outside the session's lock.
pub record Ledger : Type 0 where
  pub promises : List Promise
  pub retained : ℕ
  pub freed : ℕ
  pub callbacks : List ℕ

abbrev fresh_promise : Bool → Promise
fresh_promise wants = record {
  wants = wants;
  result = none;
  alive = true;
  done = false;
  hook = none;
  registered = false;
}

-- `Promise::pair`
unfoldable pub pair : Bool → Ledger → ResultSender × Ledger
pair wants l = (
  record { response = wants; promise = length l.promises },
  record l { promises = l.promises ++ (fresh_promise wants ∷ []) },
)

-- The bytes that a result holds until it is read or dropped.
unfoldable pub held : Option Outcome → ℕ
held none = 0
held (some (response e)) = e.charge
held (some written) = 0
held (some (failure e)) = 0

-- `ByteCharge::reserve`: `none` where the sum does not fit a `usize` or exceeds the limit.
unfoldable pub reserve : ℕ → ℕ → ℕ → Option ℕ
reserve used bytes limit =
    if ltb (used + bytes) (2 ^ 64) && leb (used + bytes) limit then some (used + bytes) else none

-- The `drop` of a `ByteCharge`, which was taken out before.
unfoldable pub release : ℕ → Ledger → Ledger
release charge l = record l { retained = l.retained - charge; freed = l.freed - charge }

-- An envelope with this charge is taken out of the session or of a promise, and not dropped yet.
unfoldable pub detach : ℕ → Ledger → Ledger
detach charge l = record l { freed = l.freed + charge }

abbrev called : Option ℕ → List ℕ
called none = []
called (some callback) = callback ∷ []

abbrev send_to : Ledger → ℕ → Outcome → Option Promise → Ledger × Bool
send_to l i r none = (l, false)
send_to l i r (some p) =
    if p.alive
    then (
      record l {
        promises = set l.promises i (record p { result = some r; done = true; hook = none });
        callbacks = l.callbacks ++ called p.hook;
      },
      true,
    )
    else (
      record l {
        promises = set l.promises i (record p { hook = none });
        retained = l.retained - held (some r);
        callbacks = l.callbacks ++ called p.hook;
      },
      false,
    )

-- `ResultSender::send`, with the callback pushed to the notifications. The second part is `delivered`;
-- a result that cannot be delivered is dropped, and the bytes that it holds are released.
unfoldable pub send : ResultSender → Outcome → Ledger → Ledger × Bool
unfolding held
send s r l = send_to l s.promise r (get_elem? l.promises s.promise)

abbrev notify_at : Ledger → ℕ → ℕ → Option Promise → Option Ledger
notify_at l i callback none = none
notify_at l i callback (some p) =
    if p.registered
    then none
    else if p.done
    then some (record l {
      promises = set l.promises i (record p { registered = true });
      callbacks = l.callbacks ++ (callback ∷ []);
    })
    else some (record l {
      promises = set l.promises i (record p { registered = true; hook = some callback });
    })

-- `Promise::notify`; `none` is the panic on a second registration.
unfoldable pub notify : ℕ → ℕ → Ledger → Option Ledger
notify i callback l = notify_at l i callback (get_elem? l.promises i)

abbrev drop_at : Ledger → ℕ → Option Promise → Ledger
drop_at l i none = l
drop_at l i (some p) = record l {
  promises = set l.promises i (record p { result = none; alive = false; hook = none });
  freed = l.freed + held p.result;
}

-- The `drop` of a promise. The result that its channel holds is dropped with it, its charge later.
unfoldable pub drop_promise : ℕ → Ledger → Ledger
unfolding held
drop_promise i l = drop_at l i (get_elem? l.promises i)

abbrev wait_at : Ledger → ℕ → Option Promise → Option (Outcome × Ledger)
wait_at l i none = none
wait_at l i (some p) = elim p.result [ none ↦ none | some r ↦ some (r, drop_at l i (some p)) ]

-- The receive of `Promise::wait_result`, which consumes the promise and takes its result out; `none`
-- while nothing is published.
unfoldable pub wait_result : ℕ → Ledger → Option (Outcome × Ledger)
unfolding held
wait_result i l = wait_at l i (get_elem? l.promises i)
