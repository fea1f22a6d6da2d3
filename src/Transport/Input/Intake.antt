-- ===== src/Transport/Input/Intake.antt =====
-- What the adapter hands over and what `ReadHalf::read` of src/transport/stream.rs returns.
use wire_rs.Base.{ℕ, ◌≡◌, refl, Option, none, some, List, [], ◌∷◌, ◌++◌, arith, if◌then◌else◌}
use wire_rs.Transport.Output.{ErrorKind}
use wire_rs.Transport.Input.{
  Attempt, gives, errs, Turn, Ending, received, error, blocked, turn, read,
}

abbrev given : Attempt → List ℕ
given (gives bytes) = bytes
given (errs e) = []

abbrev set_and_given : Option ErrorKind → Attempt → List ℕ
set_and_given none a = given a
set_and_given (some e) a = []

-- The bytes that the adapter hands over in the turns: none where it is not called.
abbrev pub handed_over : List Turn → List ℕ
handed_over [] = []
handed_over (t ∷ turns) =
    (if t.late then [] else if t.admits then set_and_given t.setter t.attempt else [])
    ++ handed_over turns

abbrev pub bytes_of : Ending → List ℕ
bytes_of (received bytes) = bytes
bytes_of (error e) = []
bytes_of blocked = []

-- Whatever the adapter does and however often a read is retried, the bytes that the adapter hands over
-- are those that the read returns, followed by those of the turns that it leaves: none is lost.
pub read-handed_over :
    (turns : List Turn) → handed_over turns ≡ bytes_of (read turns).0 ++ handed_over (read turns).1
unfolding read turn
read-handed_over [] = refl
read-handed_over (t ∷ turns) = ground (arith, read-handed_over turns)
