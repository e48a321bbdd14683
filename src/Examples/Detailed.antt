-- ===== src/Examples/Detailed.antt =====
-- src/net/Connection.cpp with its buffers, from the start of a connection to its close.
use protobase.Common.{
  ℕ, ◌≡◌, refl, none, some, true, false, Option, List, [], ◌∷◌, arith, ◌==◌, if◌then◌else◌,
  replicate,
}
use protobase.Common.Int.{pos}
use protobase.Memory.{Heap}
use protobase.Poller.{no_channels}
use protobase.Buffer.{Buffer, skip}
use protobase.Buffer.Fd.{took, received}
use protobase.Connection.{would_block, create}
use protobase.Connection.Handlers.{skipped, on_connection_establish}
use protobase.Connection.Detailed.{Detailed, try_write}
use protobase.Connection.Detailed.Kept.{Keeps, skip-Keeps}
use protobase.Connection.Detailed.Refine.{Stored, Simulates}
use protobase.Connection.Detailed.Handling.{Acts}
use protobase.Connection.Detailed.Runs.{
  Method, sends, drains, reads, shuts, closes, establishes, destroys, AllFit, call, CallFits,
  run_calls, listed_calls, run_calls-Simulates,
}

abbrev memory : Heap
memory = record {
  next = 3;
  block = λ p. if p == 1 then some (replicate 12 0) else none;
  count = λ p. if p == 2 then some 1 else none;
  junk = 0;
}

abbrev small_buffer : Buffer
small_buffer = record {
  buffer = 1;
  read_index = 8;
  write_index = 8;
  capacity = 12;
  ref_count = 2;
  own_memory = true;
}

small_buffer-Keeps : Keeps [] small_buffer memory
small_buffer-Keeps = record {
  bytes = replicate 12 0;
  holds = record {
    front = omega arith;
    order = omega arith;
    room = omega arith;
    small = omega arith;
    not_null = omega arith;
    allocated = omega arith;
    block = refl;
    size = refl;
  };
  live = (
    1,
    record {
      positive = omega arith;
      not_null = omega arith;
      allocated = omega arith;
      count = refl;
    },
  );
  same = refl;
}

abbrev fresh : Detailed
fresh = record {
  control = create 1 (pos 5) no_channels;
  input = small_buffer;
  input_heap = memory;
  output = small_buffer;
  output_heap = memory;
}

fresh-Stored : Stored fresh (create 1 (pos 5) no_channels)
unfolding create
fresh-Stored = record {
  unread = [];
  unsent = [];
  input = small_buffer-Keeps;
  output = small_buffer-Keeps;
  same = refl;
}

-- A message callback that takes two bytes.
abbrev take_two : Buffer → Heap → Option (Buffer × Heap)
take_two b h = some (skip 2 b, h)

take_two-Acts : Acts take_two (skipped 2)
unfolding Acts
take_two-Acts xs b h k = ((skip 2 b, h), refl, skip-Keeps k 2)

-- The output outgrows its buffer.
abbrev calls : List Method
calls =
    establishes
    ∷ sends (1 ∷ 2 ∷ 3 ∷ 4 ∷ 5 ∷ 6 ∷ 7 ∷ 8 ∷ []) (took 2) would_block
    ∷ reads (received (9 ∷ 9 ∷ 9 ∷ []))
    ∷ drains (took 4)
    ∷ shuts true
    ∷ drains (took 2)
    ∷ closes
    ∷ destroys
    ∷ []

calls-AllFit : AllFit take_two calls fresh
unfolding AllFit call CallFits create on_connection_establish try_write
    protobase.Buffer.readable_bytes protobase.Common.sub_size protobase.Buffer.writable_bytes
    protobase.Common.add_size
calls-AllFit = (tt, (omega arith, (omega arith, (tt, (tt, (tt, (tt, (tt, tt))))))))

run_calls-Simulates_example :
    Simulates
      (run_calls take_two calls fresh)
      (listed_calls (skipped 2) calls (create 1 (pos 5) no_channels))
run_calls-Simulates_example =
    run_calls-Simulates take_two (skipped 2) take_two-Acts calls fresh
      (create 1 (pos 5) no_channels) fresh-Stored calls-AllFit
