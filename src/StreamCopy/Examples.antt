-- ===== src/StreamCopy/Examples.antt =====
-- A copy of three bytes at a time.
use cs144_sponge.Base.{
  ℕ, ◌≡◌, refl, Bool, true, false, List, [], ◌∷◌, arith, ok, length-take, take, min,
}
use cs144_sponge.FileDescriptor
use cs144_sponge.FileDescriptor.{returned, gave, FdWrapper}
use cs144_sponge.EventLoop.{PollFd, Polled, polled, Revents}
use cs144_sponge.EventLoop.Rounds.{NoFailure, by_events}
use cs144_sponge.StreamCopy.{Copy, Environment, bidirectional_stream_copy}
use cs144_sponge.StreamCopy.Copied.{Copies}
use cs144_sponge.StreamCopy.Loop.{Kernel, Copies-both}

abbrev three : List ℕ
three = 1 ∷ 2 ∷ 3 ∷ []

abbrev system : Environment
system = record {
  read_input = λ call limit. gave (take (min FileDescriptor.buffer_size limit) three);
  read_socket = λ call limit. gave [];
  write_socket = λ call round size. returned (min 2 size);
  write_output = λ call round size. returned size;
  shutdown_socket = λ call. returned 0;
  close_output = λ call. returned 0;
}

system-Kernel : Kernel system
system-Kernel = record {
  gives_input = λ call limit. (
    take (min FileDescriptor.buffer_size limit) three,
    refl,
    omega (arith, length-take {A = ℕ} (min FileDescriptor.buffer_size limit) three),
  );
  gives_socket = λ call limit. ([], refl, omega arith);
  takes_socket = λ call round size. record {
    taken = min 2 size;
    as_answer = refl;
    at_most = omega arith;
    progress = λ h. omega (arith, h);
  };
  takes_output = λ call round size. record {
    taken = size;
    as_answer = refl;
    at_most = omega arith;
    progress = λ h. h;
  };
  shuts = λ call. (0, refl);
  closes = λ call. (0, refl);
}

abbrev everything : Revents
everything = record { readable = true; writable = true; hung_up = false; failing = false }

abbrev all_ready : List PollFd → Polled
all_ready ps = polled 4 (λ i. everything)

all_ready-NoFailure : (ps : List PollFd) → NoFailure (all_ready ps)
all_ready-NoFailure ps = by_events (λ i. refl)

abbrev descriptor : ℕ → FdWrapper
descriptor n = record { fd = n; eof = false; closed = false; read_count = 0; write_count = 0 }

Copies-both_example :
    (b : Bool) × (w : Copy) × (bidirectional_stream_copy system
        (all_ready ∷ all_ready ∷ [])
        (descriptor 0)
        (descriptor 1)
        (descriptor 4)
      ≡ ok (b, w))
    × Copies w.outbound
    × Copies w.inbound
Copies-both_example =
    Copies-both system (all_ready ∷ all_ready ∷ []) (descriptor 0) (descriptor 1) (descriptor 4)
      system-Kernel (all_ready-NoFailure, (all_ready-NoFailure, tt))
