-- ===== src/Transport/Outbound/Others.antt =====
-- The other threads of a session while its owner is in a call of `recv` (src/transport/client.rs,
-- src/transport/server.rs): what they may do with src/transport/outbound.rs through a `Sender`, of this
-- or of an earlier session. Only the owner binds a context.
use wire_rs.Base.{ℕ, ◌≡◌, true, List, [], ◌∷◌, arith}
use wire_rs.Transport.Outbound.{Outbound, Output, is_bound, end, disconnect, send, Interference}

-- A send of a packet that a context has sealed, with its outputs, or the end of a context's session.
pub data Action : Type 0 where
  sends : ℕ → List ℕ → Output → Output → Action
  disconnects : ℕ → Output → Action

module _ (encode : List ℕ → List ℕ) (encode_buffer : ℕ → ℕ) where
  abbrev act : Action → Outbound → Outbound
  act (sends c packet out again) o = (send encode encode_buffer c packet out again o).0
  act (disconnects c out) o = (disconnect c out o).0

  abbrev pub act_all : List Action → Outbound → Outbound
  act_all [] o = o
  act_all (a ∷ rest) o = act_all rest (act a o)

  abbrev pub acts : (ℕ → List Action) → (ℕ → List Action) → Interference
  acts during after = record { during = λ n. act_all (during n); after = λ n. act_all (after n) }

  act-bound :
      (d : ℕ) (a : Action) (o : Outbound)
      → is_bound d (act a o).binding ≡ true
      → is_bound d o.binding ≡ true
  unfolding send disconnect end
  act-bound d (sends c packet out again) o h = ground arith
  act-bound d (disconnects c out) o h = ground arith

  -- The other threads bind no context.
  pub act_all-bound :
      (d : ℕ) (xs : List Action) (o : Outbound)
      → is_bound d (act_all xs o).binding ≡ true
      → is_bound d o.binding ≡ true
  act_all-bound d [] o h = h
  act_all-bound d (a ∷ rest) o h = act-bound d a o (act_all-bound d rest (act a o) h)

-- Other threads that bind no context `d`.
pub record IsPassive (d : ℕ) (others : Interference) : Type 0 where
  pub reading :
      (n : ℕ) (o : Outbound)
      → is_bound d (others.during n o).binding ≡ true
      → is_bound d o.binding ≡ true
  pub returning :
      (n : ℕ) (o : Outbound)
      → is_bound d (others.after n o).binding ≡ true
      → is_bound d o.binding ≡ true

pub acts-IsPassive :
    (encode : List ℕ → List ℕ) (encode_buffer : ℕ → ℕ) (during after : ℕ → List Action) (d : ℕ)
    → IsPassive d (acts encode encode_buffer during after)
acts-IsPassive encode encode_buffer during after d = record {
  reading = λ n. act_all-bound encode encode_buffer d (during n);
  returning = λ n. act_all-bound encode encode_buffer d (after n);
}
