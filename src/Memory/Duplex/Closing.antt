-- ===== src/Memory/Duplex/Closing.antt =====
-- What the two sides see once an endpoint of a duplex connection has closed.
use wire_rs.Base.{
  ℕ, ◌<◌, ◌≡◌, refl, true, false, not, ◌||◌, Option, some, List, [], length, if◌then◌else◌, arith,
}
use wire_rs.Memory.Pipe.{
  ready, fail, broken_pipe, is_empty, expired, read, write, flush, close_reader, close_writer,
}
use wire_rs.Memory.Pipe.Drain.{read_to_end, read_to_end-eq-bytes}
use wire_rs.Memory.Duplex.{Duplex, close_endpoint, peer}

-- What calls return on the two sides of `d`, whose first endpoint has just closed `before`: at
-- the time `now` under `deadline`, with `len` bytes to read into and the output `buf`.
pub record SeesClosing (before d : Duplex) (now : ℕ) (deadline : Option ℕ) (len : ℕ) (buf : List ℕ)
    : Type 0 where
  pub local_read : (read now deadline len d.incoming).0 ≡ ready []
  pub local_write : (write now deadline buf d.outgoing).0 ≡ fail broken_pipe
  pub local_flush : flush now deadline d.outgoing ≡ fail broken_pipe
  pub peer_write : (write now deadline buf (peer d).outgoing).0 ≡ fail broken_pipe
  pub peer_flush : flush now deadline (peer d).outgoing ≡ (
      if not before.incoming.writer_open
        || (before.incoming.lost || not (is_empty before.incoming.bytes))
      then fail broken_pipe
      else ready tt)

-- Once an endpoint closes, its own reads end and its own nonempty writes and flushes fail as broken
-- under deadlines that have not expired; so do the peer's nonempty writes, and the peer's flush
-- exactly if it had closed its writer or output of its own was dropped unread.
pub close_endpoint-SeesClosing :
    (d : Duplex) (now : ℕ) (deadline : Option ℕ) (len : ℕ) (buf : List ℕ)
    → expired now deadline ≡ false
    → is_empty buf ≡ false
    → SeesClosing d (close_endpoint d) now deadline len buf
unfolding close_endpoint peer read write flush close_reader close_writer
close_endpoint-SeesClosing d now deadline len buf he hb = record {
  local_read = ground arith;
  local_write = ground arith;
  local_flush = ground arith;
  peer_write = ground arith;
  peer_flush = ground arith;
}

-- The peer of a closed endpoint still reads everything that the endpoint had written, and then the
-- end.
pub read_to_end-close_endpoint :
    (d : Duplex) (fuel now : ℕ) (deadline : Option ℕ) (len : ℕ)
    → 0 < len
    → d.outgoing.reader_open ≡ true
    → length d.outgoing.bytes < fuel
    → read_to_end fuel now deadline len (peer (close_endpoint d)).incoming ≡ some d.outgoing.bytes
unfolding close_endpoint peer close_writer
read_to_end-close_endpoint d fuel now deadline len hl hr hf =
    read_to_end-eq-bytes fuel now deadline len (close_writer d.outgoing) hl hr refl hf
