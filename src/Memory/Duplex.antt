-- ===== src/Memory/Duplex.antt =====
-- The two endpoints of `duplex` in src/memory/mod.rs, which share one pipe in each direction.
use wire_rs.Base.{ℕ, ltb, Option, none, some, List, if◌then◌else◌}
use wire_rs.Memory.Pipe.{Pipe, new, close_reader, close_writer}
pub mod Closing

-- The host's endpoint reads `incoming` and writes `outgoing`; its peer's does the reverse.
pub record Duplex : Type 0 where
  pub incoming : Pipe
  pub outgoing : Pipe

-- `none` is the panic on a zero capacity.
unfoldable pub duplex : ℕ → Option Duplex
duplex capacity =
    if ltb 0 capacity
    then some (record { incoming = new capacity; outgoing = new capacity })
    else none

-- The shutdown of the endpoint over these two pipes.
unfoldable pub close_endpoint : Duplex → Duplex
close_endpoint d = record { incoming = close_reader d.incoming; outgoing = close_writer d.outgoing }

-- The same connection as the peer sees it.
unfoldable pub peer : Duplex → Duplex
peer d = record { incoming = d.outgoing; outgoing = d.incoming }
