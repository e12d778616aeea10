-- ===== src/StreamCopy.antt =====
-- apps/bidirectional_stream_copy.cc: standard input is copied to a socket and the socket to standard
-- output, each through a byte stream, by the four rules of an event loop. The kernel's answers are
-- numbered by the callbacks that ask for them.
pub mod Copied
pub mod Loop
mod Examples
use cs144_sponge.Base.{
  ℕ, ◌+◌, ◌*◌, Bool, true, false, not, ◌&&◌, ◌||◌, ltb, min, List, [], ◌∷◌, ◌++◌, if◌then◌else◌,
  Result, ok, ◌>>=◌,
}
use cs144_sponge.ByteStream
use cs144_sponge.ByteStream.{ByteStream}
use cs144_sponge.BufferViewList
use cs144_sponge.FileDescriptor
use cs144_sponge.FileDescriptor.{Answer, Reading, FdWrapper}
use cs144_sponge.Sockets.{shutdown, shut_wr}
use cs144_sponge.EventLoop.{
  Rule, dir_in, dir_out, Outcome, exit_loop, PollFd, Polled, add_rule, wait_next_event,
}

abbrev pub max_copy_length : ℕ
max_copy_length = 65536

abbrev pub buffer_size : ℕ
buffer_size = 1048576

-- One direction: its stream and `_outbound_shutdown` or `_inbound_shutdown`, with the bytes that were
-- read from the one descriptor and those that were written to the other.
pub record Half : Type 0 where
  pub stream : ByteStream
  pub shut : Bool
  pub taken : List ℕ
  pub given : List ℕ

pub record Copy : Type 0 where
  pub input : FdWrapper
  pub output : FdWrapper
  pub socket : FdWrapper
  pub outbound : Half
  pub inbound : Half
  pub calls : ℕ

pub record Environment : Type 0 where
  pub read_input : (call limit : ℕ) → Reading
  pub read_socket : (call limit : ℕ) → Reading
  pub write_socket : (call round size : ℕ) → Answer
  pub write_output : (call round size : ℕ) → Answer
  pub shutdown_socket : (call : ℕ) → Answer
  pub close_output : (call : ℕ) → Answer

abbrev fresh : Half
fresh = record { stream = ByteStream.new buffer_size; shut = false; taken = []; given = [] }

unfoldable pub new : (input output socket : FdWrapper) → Copy
new input output socket = record {
  input = input;
  output = output;
  socket = socket;
  outbound = fresh;
  inbound = fresh;
  calls = 0;
}

abbrev pub end_half : Half → Half
end_half h = record h { stream = ByteStream.end_input h.stream }

-- The body of rules 1 and 3: from a descriptor into a stream.
unfoldable pub fill : (ℕ → Reading) → FdWrapper → Half → Result (FdWrapper × Half)
fill answer fd h =
    let limit = ByteStream.remaining_capacity h.stream in
    FileDescriptor.read fd limit (answer limit) >>= λ r.
    let h' : Half = record h {
      stream = (ByteStream.write r.0 h.stream).1;
      taken = h.taken ++ r.0;
    } in
    ok (r.1, if r.1.eof then end_half h' else h')

-- The first part of rules 2 and 4: from a stream to a descriptor.
unfoldable pub drain : (ℕ → ℕ → Answer) → FdWrapper → Half → Result (FdWrapper × Half)
drain writev fd h =
    let bytes_to_write = min max_copy_length (ByteStream.buffer_size h.stream) in
    FileDescriptor.write writev fd
      (BufferViewList.of_string (ByteStream.peek_output h.stream bytes_to_write)) false
    >>= λ r. ByteStream.pop_output h.stream r.0 >>= λ s.
        ok (r.2, record h { stream = s; given = h.given ++ r.1 })

unfoldable pub wants_bytes : Half → Half → Bool
wants_bytes h other =
    not (ByteStream.error h.stream)
    && ltb 0 (ByteStream.remaining_capacity h.stream)
    && not (ByteStream.error other.stream)

unfoldable pub has_bytes : Half → Bool
has_bytes h = not (ByteStream.buffer_empty h.stream) || (ByteStream.eof h.stream && not h.shut)

module _ (env : Environment) where
  unfoldable pub read_input : Copy → Result Copy
  unfolding fill
  read_input w = fill (env.read_input w.calls) w.input w.outbound >>= λ r.
      ok (record w { input = r.0; outbound = r.1; calls = w.calls + 1 })

  unfoldable pub write_socket : Copy → Result Copy
  unfolding drain
  write_socket w = drain (env.write_socket w.calls) w.socket w.outbound >>= λ r.
      let w' : Copy = record w { socket = r.0; outbound = r.1; calls = w.calls + 1 } in
      if ByteStream.eof r.1.stream
      then (shutdown shut_wr (env.shutdown_socket w.calls) r.0 >>= λ f.
          ok (record w' { socket = f; outbound = record (r.1) { shut = true } }))
      else ok w'

  unfoldable pub read_socket : Copy → Result Copy
  unfolding fill
  read_socket w = fill (env.read_socket w.calls) w.socket w.inbound >>= λ r.
      ok (record w { socket = r.0; inbound = r.1; calls = w.calls + 1 })

  unfoldable pub write_output : Copy → Result Copy
  unfolding drain
  write_output w = drain (env.write_output w.calls) w.output w.inbound >>= λ r.
      let w' : Copy = record w { output = r.0; inbound = r.1; calls = w.calls + 1 } in
      if ByteStream.eof r.1.stream
      then (FileDescriptor.close (env.close_output w.calls) r.0 >>= λ f.
          ok (record w' { output = f; inbound = record (r.1) { shut = true } }))
      else ok w'

  abbrev end_outbound : Copy → Result Copy
  end_outbound w = ok (record w { outbound = end_half w.outbound })

  abbrev end_inbound : Copy → Result Copy
  end_inbound w = ok (record w { inbound = end_half w.inbound })

  unfoldable pub rule_1 : Rule Copy
  rule_1 = record {
    fd = λ w. w.input;
    direction = dir_in;
    callback = read_input;
    interest = λ w. wants_bytes w.outbound w.inbound;
    cancel = end_outbound;
  }

  unfoldable pub rule_2 : Rule Copy
  rule_2 = record {
    fd = λ w. w.socket;
    direction = dir_out;
    callback = write_socket;
    interest = λ w. has_bytes w.outbound;
    cancel = end_outbound;
  }

  unfoldable pub rule_3 : Rule Copy
  rule_3 = record {
    fd = λ w. w.socket;
    direction = dir_in;
    callback = read_socket;
    interest = λ w. wants_bytes w.inbound w.outbound;
    cancel = end_inbound;
  }

  unfoldable pub rule_4 : Rule Copy
  rule_4 = record {
    fd = λ w. w.output;
    direction = dir_out;
    callback = write_output;
    interest = λ w. has_bytes w.inbound;
    cancel = end_inbound;
  }

  unfoldable pub rules : List (Rule Copy)
  unfolding rule_1 rule_2 rule_3 rule_4 add_rule
  rules = add_rule rule_4 (add_rule rule_3 (add_rule rule_2 (add_rule rule_1 [])))

  abbrev pub is_exit : Outcome → Bool
  is_exit exit_loop = true
  is_exit _ = false

  -- The loop until completion, over the answers of `poll` that are seen: has it returned?
  unfoldable pub run : List (List PollFd → Polled) → List (Rule Copy) → Copy → Result (Bool × Copy)
  run [] rs w = ok (false, w)
  run (poll ∷ polls) rs w =
      wait_next_event poll rs w >>= λ t. if is_exit t.0 then ok (true, t.2) else run polls t.1 t.2

  unfoldable pub bidirectional_stream_copy :
      List (List PollFd → Polled) → (input output socket : FdWrapper) → Result (Bool × Copy)
  unfolding run
  bidirectional_stream_copy polls input output socket = run polls rules (new input output socket)
