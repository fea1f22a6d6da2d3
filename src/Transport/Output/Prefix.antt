-- ===== src/Transport/Output/Prefix.antt =====
-- What the adapter has taken when `WriteHalf::write` of src/transport/stream.rs ends.
use wire_rs.Base.{ℕ, ◌≡◌, List, ◌++◌}
use wire_rs.Transport.Output.{Ending, done, error, panicked, blocked}

-- What was taken is a prefix of the bytes, and all of them where the write succeeds.
abbrev pub Takes : List ℕ → List ℕ × Ending → Type 0
Takes bytes (taken, done) = bytes ≡ taken
Takes bytes (taken, error e) = (rest : List ℕ) × (bytes ≡ taken ++ rest)
Takes bytes (taken, panicked) = (rest : List ℕ) × (bytes ≡ taken ++ rest)
Takes bytes (taken, blocked) = (rest : List ℕ) × (bytes ≡ taken ++ rest)
