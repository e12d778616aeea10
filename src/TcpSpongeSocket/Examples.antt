-- ===== src/TcpSpongeSocket/Examples.antt =====
-- A socket over UDP, on concrete inputs.
use mathlib.Core.List.Permᴰ
use cs144_sponge.Base.{
  ◌*◌, ℕ, ◌≡◌, refl, true, false, Option, some, List, [], ◌∷◌, ◌++◌, arith, ok, get_or, length-take,
  take, min, Bool, length, ap, subst, sym, All, IsByte,
}
use cs144_sponge.Buffer
use cs144_sponge.Buffer.Laws.{str-of_string}
use cs144_sponge.ByteStream.Inv.{contents}
use cs144_sponge.StreamReassembler.{HashOrder}
use cs144_sponge.StreamReassembler.Source.{Agrees}
use cs144_sponge.TcpHeader.{default_header}
use cs144_sponge.TcpSegment.{TcpSegment}
use cs144_sponge.TcpSegment.Wire.RoundTrip.{IsCarried, right_cksum, with_cksum}
use cs144_sponge.TcpConnection.{TcpConnection, TcpConfig}
use cs144_sponge.TcpConnection.Sound.{IsGenuine}
use cs144_sponge.FdAdapter.{FdAdapterConfig, default_adapter}
use cs144_sponge.Sockets.{Received, came}
use cs144_sponge.FileDescriptor.{Answer, returned, gave, FdWrapper, buffer_size}
use cs144_sponge.EventLoop.{Rule, polled, Revents}
use cs144_sponge.EventLoop.Rounds.{by_events}
use cs144_sponge.TcpSpongeSocket.{
  Adapter, Environment, Socket, Round, new, connect, listen_and_accept, tcp_main,
}
use cs144_sponge.TcpSpongeSocket.Adapters.{UdpAdapter, udp_adapter, lossy_adapter}
use cs144_sponge.TcpSpongeSocket.OverUdp.{udp_adapter-Carries, carried-Carrier}
use cs144_sponge.TcpSpongeSocket.Lossy.{lossy_adapter-Carries}
use cs144_sponge.TcpSpongeSocket.Callbacks.{Carries, Kernel}
use cs144_sponge.TcpSpongeSocket.Loop.{Answers, socket_sound, connect_sound}

abbrev newest_first : HashOrder
newest_first = record { arrange = λ m. m; arranged = λ m. Permᴰ.refl m }

abbrev text : ℕ → ℕ
text i = get_or (10 ∷ 11 ∷ []) i 0

abbrev config : TcpConfig
config = record { rt_timeout = 1000; recv_capacity = 100; send_capacity = 100; fixed_isn = some 7 }

abbrev syn_segment : TcpSegment
syn_segment = record {
  header = record default_header { seqno = 40; syn = true };
  payload = Buffer.of_string [];
}

part_none : Agrees text 0 []
part_none i h = absurd (omega (arith, h))

syn-IsGenuine : IsGenuine text 40 syn_segment
unfolding Buffer.str Buffer.of_string
syn-IsGenuine = ((refl, omega arith, part_none), omega arith)

syn-IsCarried : IsCarried syn_segment
syn-IsCarried = record {
  header_fits = record {
    sport_fits = omega arith;
    dport_fits = omega arith;
    seqno_fits = omega arith;
    ackno_fits = omega arith;
    doff_low = omega arith;
    doff_high = omega arith;
    win_fits = omega arith;
    cksum_fits = omega arith;
    uptr_fits = omega arith;
  };
  payload_fits = omega (arith, ap length (str-of_string []));
  payload_bytes = subst (All IsByte) (sym (str-of_string [])) tt;
}

-- Every datagram that comes in carries the peer's SYN.
abbrev coming : ℕ → Received
coming i = came (default_adapter.cfg.source) (with_cksum syn_segment (right_cksum syn_segment 0))

abbrev whole : ℕ → ℕ → Answer
whole i size = returned size

-- The adapter over UDP, with half of what is sent lost.
abbrev half_lost : FdAdapterConfig
half_lost = record (default_adapter.cfg) { loss_rate_dn = 0; loss_rate_up = 32768 }

abbrev over_udp : Adapter UdpAdapter
over_udp = lossy_adapter (λ a. a.base.cfg) (λ i. i * 20000) (udp_adapter coming whole)

over_udp-Carries : Carries over_udp text 40 (λ a. Unit {0})
over_udp-Carries =
    lossy_adapter-Carries (λ a. a.base.cfg) (λ i. i * 20000) (udp_adapter coming whole) text 40
      (λ a. Unit)
      (udp_adapter-Carries coming text 40 (λ i.
        carried-Carrier syn_segment (default_adapter.cfg.source) text 40 syn-IsCarried
          syn-IsGenuine))

-- The owner writes two bytes at a time, as far as they are asked for; the pipe takes a byte of what it
-- is offered.
abbrev pipe : Environment
pipe = record {
  read_pipe = λ call limit. gave (take (min buffer_size limit) (1 ∷ 2 ∷ []));
  write_pipe = λ call round size. returned (min 1 size);
  shutdown_pipe = λ call. returned 0;
  order = λ call. newest_first;
}

pipe-Kernel : Kernel pipe
pipe-Kernel = record {
  reads = λ call limit. (
    take (min buffer_size limit) (1 ∷ 2 ∷ []),
    refl,
    omega (arith, length-take {A = ℕ} (min buffer_size limit) (1 ∷ 2 ∷ [])),
  );
  writes = λ call round size. record {
    taken = min 1 size;
    as_answer = refl;
    at_most = omega arith;
    progress = λ h. omega (arith, h);
  };
  shuts = λ call. (0, refl);
}

abbrev everything : Revents
everything = record { readable = true; writable = true; hung_up = false; failing = false }

-- A round 30 milliseconds after the start in which all descriptors are ready.
abbrev busy_round : Round
busy_round = record { poll = λ ps. polled 4 (λ i. everything); abort = false; now = 30 }

busy-Answers : Answers busy_round
busy-Answers ps = by_events (λ i. refl)

abbrev end_of_pair : FdWrapper
end_of_pair = record { fd = 5; eof = false; closed = false; read_count = 0; write_count = 0 }

abbrev datagrams : FdWrapper
datagrams = record { fd = 6; eof = false; closed = false; read_count = 0; write_count = 0 }

abbrev at_start : UdpAdapter
at_start = record { base = default_adapter; sock = datagrams; sent = [] }

socket_sound_example :
    (b : Bool) × (rs : List (Rule (Socket TcpConnection UdpAdapter))) × (w w' : Socket TcpConnection
      UdpAdapter)
    × (o : Option (Socket (Option TcpConnection) UdpAdapter)) × (listen_and_accept over_udp pipe
          config half_lost 0 0
          (busy_round ∷ [])
          (new end_of_pair end_of_pair at_start)
        ≡ ok (b, rs, w))
    × (tcp_main over_udp pipe (returned 0) 30 (busy_round ∷ busy_round ∷ []) rs w ≡ ok (o, w'))
    × Agrees text 0 (w'.delivered ++ contents w'.tcp.receiver.reassembler.output)
socket_sound_example =
    socket_sound over_udp pipe text 40 (λ a. Unit) config half_lost 0 end_of_pair end_of_pair
      at_start 0 30 0 (busy_round ∷ []) (busy_round ∷ busy_round ∷ []) (omega arith) (omega arith)
      (omega arith) over_udp-Carries pipe-Kernel tt (busy-Answers, tt)
      (busy-Answers, (busy-Answers, tt))

connect_sound_example :
    (b : Bool) × (rs : List (Rule (Socket TcpConnection UdpAdapter))) × (w w' : Socket TcpConnection
      UdpAdapter)
    × (o : Option (Socket (Option TcpConnection) UdpAdapter)) × (connect over_udp pipe config
          half_lost 0 0
          (busy_round ∷ [])
          (new end_of_pair end_of_pair at_start)
        ≡ ok (b, rs, w))
    × (tcp_main over_udp pipe (returned 0) 30 (busy_round ∷ busy_round ∷ []) rs w ≡ ok (o, w'))
    × Agrees text 0 (w'.delivered ++ contents w'.tcp.receiver.reassembler.output)
connect_sound_example =
    connect_sound over_udp pipe text 40 (λ a. Unit) config half_lost 0 end_of_pair end_of_pair
      at_start 0 30 0 (busy_round ∷ []) (busy_round ∷ busy_round ∷ []) (omega arith) (omega arith)
      (omega arith) (omega arith) over_udp-Carries pipe-Kernel tt (busy-Answers, tt)
      (busy-Answers, (busy-Answers, tt))
