-- ===== src/TcpSpongeSocket.antt =====
-- libsponge/tcp_helpers/tcp_sponge_socket.{hh,cc}: the thread that runs a TCP connection between its
-- owner, over a local stream socket, and a datagram adapter, with the four rules of its event loop.
-- The adapter is a parameter, as it is the class template's. The kernel's answers are numbered by the
-- callbacks that ask for them. Messages on `cerr` and the thread itself are left out.
pub mod Callbacks
pub mod Loop
pub mod Adapters
pub mod Lossy
pub mod OverUdp
mod Examples
use cs144_sponge.Base.{
  ℕ, ◌+◌, Bool, true, false, not, ◌&&◌, ◌||◌, ltb, ◌==◌, min, Option, none, some, has_value, List,
  [], ◌∷◌, ◌++◌, length, is_empty, if◌then◌else◌, sub64, Result, ok, err, runtime_error, ◌>>=◌,
}
use cs144_sponge.WrappingIntegers.{WrappingInt32}
use cs144_sponge.ByteStream
use cs144_sponge.ByteStream.{ByteStream}
use cs144_sponge.StreamReassembler.{HashOrder}
use cs144_sponge.BufferViewList
use cs144_sponge.TcpSegment.{TcpSegment}
use cs144_sponge.TcpState
use cs144_sponge.TcpState.{OfficialState, st_listen, st_syn_rcvd, st_syn_sent}
use cs144_sponge.TcpConnection as Connection
use cs144_sponge.TcpConnection.{TcpConnection, TcpConfig}
use cs144_sponge.FdAdapter.{FdAdapterConfig}
use cs144_sponge.FileDescriptor
use cs144_sponge.FileDescriptor.{
  Answer, Reading, FdWrapper, system_call, register_read, register_write,
}
use cs144_sponge.Sockets.{shutdown, shut_wr, shut_rdwr}
use cs144_sponge.EventLoop
use cs144_sponge.EventLoop.{
  Rule, Direction, dir_in, dir_out, Outcome, exit_loop, PollFd, Polled, add_rule, wait_next_event,
}

-- What the socket uses of `AdaptT`. The number is that of the call, for what the kernel answers.
pub record Adapter (A : Type 0) : Type 0 where
  pub descriptor : A → FdWrapper
  pub read : ℕ → A → Result (Option TcpSegment × A)
  pub write : ℕ → TcpSegment → A → Result A
  pub tick : ℕ → A → Result A
  pub configure : FdAdapterConfig → A → A
  pub set_listening : Bool → A → A

-- The kernel's answers for `_thread_data`, and the order of the reassembler's hash map.
pub record Environment : Type 0 where
  pub read_pipe : (call limit : ℕ) → Reading
  pub write_pipe : (call round size : ℕ) → Answer
  pub shutdown_pipe : (call : ℕ) → Answer
  pub order : ℕ → HashOrder

-- `T` is a connection, or an optional one. `calls` numbers the callbacks, `delivered` is what was
-- written for the owner.
pub record Socket (T A : Type 0) : Type 0 where
  pub owner : FdWrapper
  pub thread_data : FdWrapper
  pub datagram_adapter : A
  pub tcp : T
  pub inbound_shutdown : Bool
  pub outbound_shutdown : Bool
  pub fully_acked : Bool
  pub calls : ℕ
  pub delivered : List ℕ

-- `TCPSpongeSocket(data_socket_pair, datagram_interface)`, once `set_blocking` has succeeded.
unfoldable pub new : {A : Type 0} → FdWrapper → FdWrapper → A → Socket (Option TcpConnection) A
new first second adapter = record {
  owner = first;
  thread_data = second;
  datagram_adapter = adapter;
  tcp = none;
  inbound_shutdown = false;
  outbound_shutdown = false;
  fully_acked = false;
  calls = 0;
  delivered = [];
}

-- `_tcp.emplace(config)`, and `_tcp.reset()`.
abbrev pub with_tcp : {S T A : Type 0} → T → Socket S A → Socket T A
with_tcp tcp w = record {
  owner = w.owner;
  thread_data = w.thread_data;
  datagram_adapter = w.datagram_adapter;
  tcp = tcp;
  inbound_shutdown = w.inbound_shutdown;
  outbound_shutdown = w.outbound_shutdown;
  fully_acked = w.fully_acked;
  calls = w.calls;
  delivered = w.delivered;
}

-- What the loop sees in a round: the answer of `poll`, the owner's flag and the clock.
pub record Round : Type 0 where
  pub poll : List PollFd → Polled
  pub abort : Bool
  pub now : ℕ

abbrev is_exit : Outcome → Bool
is_exit exit_loop = true
is_exit _ = false

module _ {A : Type 0} (ad : Adapter A) (env : Environment) where
  abbrev pub W : Type 0
  W = Socket TcpConnection A

  -- Rule 1: a datagram comes in.
  unfoldable pub arrived : Option TcpSegment → ℕ → TcpConnection → Result TcpConnection
  arrived none call c = ok c
  arrived (some seg) call c = Connection.segment_received (env.order call) seg c

  unfoldable pub read_datagram : W → Result W
  unfolding arrived
  read_datagram w = ad.read w.calls w.datagram_adapter >>= λ r. arrived r.0 w.calls w.tcp >>= λ c.
      ok (record w {
        datagram_adapter = r.1;
        tcp = c;
        calls = w.calls + 1;
        fully_acked = w.fully_acked || (w.thread_data.eof && Connection.bytes_in_flight c == 0);
      })

  -- Rule 2: the owner's bytes go to the connection.
  unfoldable pub end_outbound : W → Result W
  end_outbound w =
      Connection.end_input_stream w.tcp >>= λ c. ok (record w { tcp = c; outbound_shutdown = true })

  unfoldable pub take_data : List ℕ → W → Result W
  unfolding end_outbound
  take_data d w = Connection.write d w.tcp >>= λ p.
      if not (p.0 == length d)
      then err runtime_error
      else if w.thread_data.eof
      then end_outbound (record w { tcp = p.1 })
      else ok (record w { tcp = p.1 })

  unfoldable pub read_pipe : W → Result W
  unfolding take_data
  read_pipe w =
      let limit = Connection.remaining_outbound_capacity w.tcp in
      FileDescriptor.read w.thread_data limit (env.read_pipe w.calls limit) >>= λ r.
      take_data r.0 (record w { thread_data = r.1; calls = w.calls + 1 })

  unfoldable pub wants_pipe : W → Bool
  wants_pipe w =
      Connection.active w.tcp
      && not w.outbound_shutdown
      && ltb 0 (Connection.remaining_outbound_capacity w.tcp)

  -- Rule 3: the peer's bytes go to the owner.
  unfoldable pub set_inbound : ByteStream → TcpConnection → TcpConnection
  set_inbound out c = record c {
    receiver = record (c.receiver) {
      reassembler = record (c.receiver.reassembler) { output = out };
    };
  }

  unfoldable pub close_inbound : ByteStream → W → Result W
  close_inbound out w =
      if ByteStream.eof out || ByteStream.error out
      then (shutdown shut_wr (env.shutdown_pipe w.calls) w.thread_data >>= λ f.
          ok (record w { thread_data = f; inbound_shutdown = true }))
      else ok w

  unfoldable pub write_pipe : W → Result W
  unfolding set_inbound close_inbound
  write_pipe w =
      let inbound = Connection.inbound_stream w.tcp in
      let buffer = ByteStream.peek_output inbound (min 65536 (ByteStream.buffer_size inbound)) in
      FileDescriptor.write (env.write_pipe w.calls) w.thread_data (BufferViewList.of_string buffer)
        false
      >>= λ r. ByteStream.pop_output inbound r.0 >>= λ out. close_inbound out (record w {
        thread_data = r.2;
        tcp = set_inbound out w.tcp;
        calls = w.calls + 1;
        delivered = w.delivered ++ r.1;
      })

  unfoldable pub has_inbound : W → Bool
  has_inbound w =
      let inbound = Connection.inbound_stream w.tcp in
      not (ByteStream.buffer_empty inbound)
      || ((ByteStream.eof inbound || ByteStream.error inbound) && not w.inbound_shutdown)

  -- Rule 4: the connection's segments go out. The loop takes them off the queue one by one.
  unfoldable pub write_all : ℕ → List TcpSegment → A → Result A
  write_all call [] a = ok a
  write_all call (seg ∷ q) a = ad.write call seg a >>= λ a'. write_all call q a'

  unfoldable pub write_datagrams : W → Result W
  unfolding write_all
  write_datagrams w = write_all w.calls w.tcp.segments_out w.datagram_adapter >>= λ a.
      ok (record w {
        datagram_adapter = a;
        tcp = record (w.tcp) { segments_out = [] };
        calls = w.calls + 1;
      })

  unfoldable pub rule_1 : Rule W
  rule_1 = record {
    fd = λ w. ad.descriptor w.datagram_adapter;
    direction = dir_in;
    callback = read_datagram;
    interest = λ w. Connection.active w.tcp;
    cancel = λ w. ok w;
  }

  unfoldable pub rule_2 : Rule W
  rule_2 = record {
    fd = λ w. w.thread_data;
    direction = dir_in;
    callback = read_pipe;
    interest = wants_pipe;
    cancel = end_outbound;
  }

  unfoldable pub rule_3 : Rule W
  rule_3 = record {
    fd = λ w. w.thread_data;
    direction = dir_out;
    callback = write_pipe;
    interest = has_inbound;
    cancel = λ w. ok w;
  }

  unfoldable pub rule_4 : Rule W
  rule_4 = record {
    fd = λ w. ad.descriptor w.datagram_adapter;
    direction = dir_out;
    callback = write_datagrams;
    interest = λ w. not (is_empty w.tcp.segments_out);
    cancel = λ w. ok w;
  }

  -- `_initialize_TCP`: the rules, and the socket with a new connection. `random` is its number.
  unfoldable pub rules : List (Rule W)
  unfolding rule_1 rule_2 rule_3 rule_4 add_rule
  rules = add_rule rule_4 (add_rule rule_3 (add_rule rule_2 (add_rule rule_1 [])))

  unfoldable pub initialize_tcp : TcpConfig → WrappingInt32 → Socket (Option TcpConnection) A → W
  initialize_tcp cfg random w = with_tcp (Connection.new cfg random) w

  -- The end of a round of `_tcp_loop`: the time that has passed is told, and kept.
  unfoldable pub pass_time : ℕ → ℕ → W → Result (ℕ × W)
  pass_time base_time now w =
      if Connection.active w.tcp
      then (Connection.tick (sub64 now base_time) w.tcp >>= λ c.
          ad.tick (sub64 now base_time) w.datagram_adapter >>= λ a.
          ok (now, record w { tcp = c; datagram_adapter = a }))
      else ok (base_time, w)

  -- `_tcp_loop`, over the rounds that are seen: has it ended, with which rules and which state?
  unfoldable pub tcp_loop :
      (W → Bool) → ℕ → List Round → List (Rule W) → W → Result (Bool × List (Rule W) × W)
  unfolding pass_time
  tcp_loop condition base_time [] rules w = ok (not (condition w), rules, w)
  tcp_loop condition base_time (r ∷ rounds) rules w =
      if not (condition w)
      then ok (true, rules, w)
      else (wait_next_event r.poll rules w >>= λ t.
          if is_exit t.0 || r.abort
          then ok (true, t.1, t.2)
          else (pass_time base_time r.now t.2 >>= λ p. tcp_loop condition p.0 rounds t.1 p.1))

  abbrev pub in_state : OfficialState → W → Bool
  in_state s w = TcpState.equals (Connection.state w.tcp) (TcpState.of_state s)

  unfoldable pub connect :
      TcpConfig
      → FdAdapterConfig
      → WrappingInt32
      → ℕ
      → List Round
      → Socket (Option TcpConnection) A
      → Result (Bool × List (Rule W) × W)
  unfolding tcp_loop initialize_tcp
  connect c_tcp c_ad random base_time rounds w =
      if has_value w.tcp
      then err runtime_error
      else (Connection.connect (initialize_tcp c_tcp random w).tcp >>= λ c.
          let w' : W = record (with_tcp c w) {
            datagram_adapter = ad.configure c_ad w.datagram_adapter;
          } in
          if in_state st_syn_sent w'
          then tcp_loop (in_state st_syn_sent) base_time rounds rules w'
          else err runtime_error)

  abbrev pub is_accepting : W → Bool
  is_accepting w = in_state st_listen w || in_state st_syn_rcvd w || in_state st_syn_sent w

  unfoldable pub listen_and_accept :
      TcpConfig
      → FdAdapterConfig
      → WrappingInt32
      → ℕ
      → List Round
      → Socket (Option TcpConnection) A
      → Result (Bool × List (Rule W) × W)
  unfolding tcp_loop initialize_tcp
  listen_and_accept c_tcp c_ad random base_time rounds w =
      if has_value w.tcp
      then err runtime_error
      else tcp_loop is_accepting base_time rounds rules (record (initialize_tcp c_tcp random w) {
        datagram_adapter = ad.set_listening true (ad.configure c_ad w.datagram_adapter);
      })

  -- `shutdown(SHUT_RDWR)` on the owner's end, and `_tcp.reset()`.
  unfoldable pub finish : Answer → W → Result (Socket (Option TcpConnection) A)
  finish answer w =
      shutdown shut_rdwr answer w.owner >>= λ f. ok (with_tcp none (record w { owner = f }))

  -- `_tcp_main`, on a connection that there is, over the rounds that are seen: with the loop still
  -- running there is no socket yet that it leaves behind.
  unfoldable pub tcp_main :
      Answer
      → ℕ
      → List Round
      → List (Rule W)
      → W
      → Result (Option (Socket (Option TcpConnection) A) × W)
  unfolding tcp_loop finish
  tcp_main answer base_time rounds rules w = tcp_loop (λ w'. true) base_time rounds rules w >>= λ t.
      if t.0 then (finish answer t.2 >>= λ w'. ok (some w', t.2)) else ok (none, t.2)
