-- ===== src/Protocol/Ids.antt =====
-- The roles, parities and message kinds of src/protocol/envelope.rs.
use wire_rs.Base.{ℕ, ◌%◌, ◌==◌, ◌≡◌, refl, if◌then◌else◌}

pub data Side : Type 0 where
  client server : Side

pub data Parity : Type 0 where
  odd even : Parity

pub data MessageKind : Type 0 where
  is_request is_response : MessageKind

-- `Parity::of`
unfoldable pub parity_of : ℕ → Parity
parity_of id = if id % 2 == 1 then odd else even

-- `Parity::first`
unfoldable pub first : Parity → ℕ
first odd = 1
first even = 2

-- `Parity::from`
unfoldable pub parity : Side → Parity
parity client = odd
parity server = even

abbrev same_parity : Parity → Parity → MessageKind
same_parity odd odd = is_response
same_parity even even = is_response
same_parity odd even = is_request
same_parity even odd = is_request

-- `MessageKind::from_id`
unfoldable pub from_id : ℕ → Parity → MessageKind
unfolding parity_of
from_id id own = same_parity (parity_of id) own

-- The side at the other end of the wire.
abbrev pub peer_of : Side → Side
peer_of client = server
peer_of server = client

pub peer_of-peer_of : (side : Side) → peer_of (peer_of side) ≡ side
peer_of-peer_of client = refl
peer_of-peer_of server = refl
