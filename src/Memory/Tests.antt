-- ===== src/Memory/Tests.antt =====
-- Runs of a pipe and of a connection.
use wire_rs.Base.{◌≡◌, refl, true, false, none, some, List, [], ◌∷◌, arith}
use wire_rs.Memory.Pipe.{Pipe, expired}
use wire_rs.Memory.Pipe.Traffic.{
  Call, reads, writes, closes_reader, closes_writer, run, start, IsAccounted, run-start-IsAccounted,
}
use wire_rs.Memory.Pipe.Drain.{read_to_end, read_to_end-eq-bytes}
use wire_rs.Memory.Duplex.{Duplex, close_endpoint}
use wire_rs.Memory.Duplex.Closing.{SeesClosing, close_endpoint-SeesClosing}

abbrev calls : List Call
calls = writes 0 none (1 ∷ 2 ∷ 3 ∷ []) ∷ reads 1 none 1 ∷ closes_reader ∷ closes_writer ∷ []

run-start-IsAccounted_example : IsAccounted (run (start 2) calls)
run-start-IsAccounted_example = run-start-IsAccounted 2 calls

abbrev ending : Pipe
ending = record {
  capacity = 4;
  bytes = 1 ∷ 2 ∷ 3 ∷ [];
  reader_open = true;
  writer_open = false;
  lost = false;
}

abbrev connection : Duplex
connection = record {
  incoming = record ending { writer_open = true };
  outgoing = record ending { writer_open = true };
}

read_to_end-eq-bytes_example : read_to_end 4 0 none 2 ending ≡ some (1 ∷ 2 ∷ 3 ∷ [])
read_to_end-eq-bytes_example =
    read_to_end-eq-bytes 4 0 none 2 ending (omega arith) refl refl (omega arith)

close_endpoint-SeesClosing_example :
    SeesClosing connection (close_endpoint connection) 0 (some 9) 2 (7 ∷ [])
unfolding expired
close_endpoint-SeesClosing_example =
    close_endpoint-SeesClosing connection 0 (some 9) 2 (7 ∷ []) refl refl
