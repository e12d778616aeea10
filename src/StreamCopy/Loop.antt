-- ===== src/StreamCopy/Loop.antt =====
-- The four rules, and the loop that serves them until it is done.
use cs144_sponge.Base.{
  ℕ, ◌+◌, ◌≡◌, refl, ap, Bool, true, false, ◌&&◌, inl, inr, Bool-cases, List, [], ◌∷◌, All, arith,
  ◌==◌, ok, IsU64,
}
use cs144_sponge.ByteStream
use cs144_sponge.BufferList
use cs144_sponge.ByteStream.{ByteStream}
use cs144_sponge.ByteStream.Inv.{contents, new-Inv}
use cs144_sponge.FileDescriptor
use cs144_sponge.FileDescriptor.{
  Answer, returned, Reading, gave, FdWrapper, Written, system_call, register_read, register_write,
}
use cs144_sponge.FileDescriptor.Write.{Takes}
use cs144_sponge.FileDescriptor.Streams.{counted_read, counted_twice}
use cs144_sponge.Sockets.{shutdown}
use cs144_sponge.EventLoop.{Rule, PollFd, Polled, service_count, add_rule}
use cs144_sponge.EventLoop.SetUp.{Free, Fit}
use cs144_sponge.EventLoop.Rounds.{NoFailure, wait_next_event-Fit}
use cs144_sponge.StreamCopy.{
  Half, Copy, Environment, new, end_half, read_input, write_socket, read_socket, write_output,
  rule_1, rule_2, rule_3, rule_4, rules, is_exit, run, bidirectional_stream_copy, buffer_size,
}
use cs144_sponge.StreamCopy.Copied.{Copies, Gives, end_half-Copies, fill-Copies, drain-Copies}

-- What the kernel promises: no read gives more than was asked for, a write takes some of what it is
-- offered, and no call fails.
pub record Kernel (env : Environment) : Type 0 where
  pub gives_input : (call : ℕ) → Gives (env.read_input call)
  pub gives_socket : (call : ℕ) → Gives (env.read_socket call)
  pub takes_socket : (call round size : ℕ) → Takes size (env.write_socket call round size)
  pub takes_output : (call round size : ℕ) → Takes size (env.write_output call round size)
  pub shuts : (call : ℕ) → (n : ℕ) × (env.shutdown_socket call ≡ returned n)
  pub closes : (call : ℕ) → (n : ℕ) × (env.close_output call ≡ returned n)

-- Both directions.
pub record Both (w : Copy) : Type 0 where
  pub outbound : Copies w.outbound
  pub inbound : Copies w.inbound

abbrev None : Copy → Type 0
None w = Unit {0}

shut-Copies : (h : Half) → Copies h → Copies (record h { shut = true })
shut-Copies h v = record { valid = v.valid; lost = v.lost; copied = v.copied; kept = v.kept }

module _ (env : Environment) (kernel : Kernel env) where
  rule_1-Free : Free Both None (rule_1 env)
  unfolding rule_1 read_input service_count
  rule_1-Free = record {
    cancels = λ w v. (
      record w { outbound = end_half w.outbound },
      refl,
      record { outbound = end_half-Copies w.outbound v.outbound; inbound = v.inbound },
      λ g. g,
    );
    calls = λ w v.
        let (f, h, e, v', counted) =
          fill-Copies (env.read_input w.calls) w.input w.outbound (kernel.gives_input w.calls)
            v.outbound in
        (
          record w { input = f; outbound = h; calls = w.calls + 1 },
          rw e,
          record { outbound = v'; inbound = v.inbound },
          λ g. g,
          rw counted,
        );
  }

  rule_3-Free : Free Both None (rule_3 env)
  unfolding rule_3 read_socket service_count
  rule_3-Free = record {
    cancels = λ w v. (
      record w { inbound = end_half w.inbound },
      refl,
      record { outbound = v.outbound; inbound = end_half-Copies w.inbound v.inbound },
      λ g. g,
    );
    calls = λ w v.
        let (f, h, e, v', counted) =
          fill-Copies (env.read_socket w.calls) w.socket w.inbound (kernel.gives_socket w.calls)
            v.inbound in
        (
          record w { socket = f; inbound = h; calls = w.calls + 1 },
          rw e,
          record { outbound = v.outbound; inbound = v' },
          λ g. g,
          rw counted,
        );
  }

  write_socket-Both :
      (w : Copy)
      → Both w
      → (w' : Copy) × (write_socket env w ≡ ok w')
        × Both w'
        × ((w.socket.write_count == w'.socket.write_count) ≡ false)
  unfolding write_socket shutdown system_call register_write
  write_socket-Both w v =
      let (h, e, v') =
        drain-Copies (env.write_socket w.calls) w.socket w.outbound (kernel.takes_socket w.calls)
          v.outbound in
      let f : FdWrapper = register_write w.socket in
      let (n, s) = kernel.shuts w.calls in
      elim (Bool-cases (ByteStream.eof h.stream)) [
        | inl k ↦ (
          record w {
            socket = register_write f;
            outbound = record h { shut = true };
            calls = w.calls + 1;
          },
          rw (e, k, s),
          record { outbound = shut-Copies h v'; inbound = v.inbound },
          counted_twice w.socket.write_count,
        )
        | inr k ↦ (
          record w { socket = f; outbound = h; calls = w.calls + 1 },
          rw (e, k),
          record { outbound = v'; inbound = v.inbound },
          counted_read w.socket.write_count,
        )
      ]

  write_output-Both :
      (w : Copy)
      → Both w
      → (w' : Copy) × (write_output env w ≡ ok w')
        × Both w'
        × ((w.output.write_count == w'.output.write_count) ≡ false)
  unfolding write_output FileDescriptor.close system_call register_write
  write_output-Both w v =
      let (h, e, v') =
        drain-Copies (env.write_output w.calls) w.output w.inbound (kernel.takes_output w.calls)
          v.inbound in
      let f : FdWrapper = register_write w.output in
      let (n, s) = kernel.closes w.calls in
      elim (Bool-cases (ByteStream.eof h.stream)) [
        | inl k ↦ (
          record w {
            output = record f { eof = true; closed = true };
            inbound = record h { shut = true };
            calls = w.calls + 1;
          },
          rw (e, k, s),
          record { outbound = v.outbound; inbound = shut-Copies h v' },
          counted_read w.output.write_count,
        )
        | inr k ↦ (
          record w { output = f; inbound = h; calls = w.calls + 1 },
          rw (e, k),
          record { outbound = v.outbound; inbound = v' },
          counted_read w.output.write_count,
        )
      ]

  rule_2-Free : Free Both None (rule_2 env)
  unfolding rule_2 service_count
  rule_2-Free = record {
    cancels = λ w v. (
      record w { outbound = end_half w.outbound },
      refl,
      record { outbound = end_half-Copies w.outbound v.outbound; inbound = v.inbound },
      λ g. g,
    );
    calls = λ w v.
        let (w', e, v', counted) = write_socket-Both w v in
        (w', e, v', λ g. g, ap (λ b. b && Rule.interest (rule_2 env) w') counted);
  }

  rule_4-Free : Free Both None (rule_4 env)
  unfolding rule_4 service_count
  rule_4-Free = record {
    cancels = λ w v. (
      record w { inbound = end_half w.inbound },
      refl,
      record { outbound = v.outbound; inbound = end_half-Copies w.inbound v.inbound },
      λ g. g,
    );
    calls = λ w v.
        let (w', e, v', counted) = write_output-Both w v in
        (w', e, v', λ g. g, ap (λ b. b && Rule.interest (rule_4 env) w') counted);
  }

  rules-Fit : Fit Both None (rules env)
  unfolding rules add_rule
  rules-Fit = inl (rule_1-Free, inl (rule_2-Free, inl (rule_3-Free, inl (rule_4-Free, tt))))

  run-Both :
      (polls : List (List PollFd → Polled)) (rs : List (Rule Copy)) (w : Copy)
      → All (λ poll. (ps : List PollFd) → NoFailure (poll ps)) polls
      → Fit Both None rs
      → Both w
      → (b : Bool) × (w' : Copy) × (run env polls rs w ≡ ok (b, w')) × Both w'
  unfolding run
  run-Both [] rs w ns k v = (false, w, refl, v)
  run-Both (poll ∷ polls) rs w (n, ns) k v =
      let (o, rs1, w1, e1, v1, k1) = wait_next_event-Fit Both None poll rs w n k v in
      elim (Bool-cases (is_exit env o)) [
        | inl x ↦ (true, w1, rw (e1, x), v1)
        | inr x ↦ let (b, w', e', v') = run-Both polls rs1 w1 ns k1 v1 in (b, w', rw (e1, x) e', v')
      ]

fresh-Copies :
    (capacity : ℕ)
    → IsU64 capacity
    → Copies (record { stream = ByteStream.new capacity; shut = false; taken = []; given = [] })
unfolding ByteStream.new contents BufferList.concatenate
fresh-Copies capacity h = record {
  valid = new-Inv capacity h;
  lost = [];
  copied = refl;
  kept = λ e. refl;
}

-- The copy runs without an exception, over any answers of `poll` that report no failing descriptor and
-- with a kernel that keeps its promises: no busy wait is detected. In each direction what was written
-- and what is buffered are the beginning of what was read, and all of it as long as the stream has not
-- been ended.
pub Copies-both :
    (env : Environment) (polls : List (List PollFd → Polled)) (input output socket : FdWrapper)
    → Kernel env
    → All (λ poll. (ps : List PollFd) → NoFailure (poll ps)) polls
    → (b : Bool) × (w : Copy) × (bidirectional_stream_copy env polls input output socket
        ≡ ok (b, w))
      × Copies w.outbound
      × Copies w.inbound
unfolding bidirectional_stream_copy new
Copies-both env polls input output socket kernel ns =
    let half = fresh-Copies buffer_size (omega arith) in
    let (b, w, e, v) =
      run-Both env kernel polls (rules env) (new input output socket) ns (rules-Fit env kernel)
        (record { outbound = half; inbound = half }) in
    (b, w, e, v.outbound, v.inbound)
