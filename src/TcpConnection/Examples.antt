-- ===== src/TcpConnection/Examples.antt =====
-- A connection at concrete calls.
use mathlib.Core.List.Permᴰ
use cs144_sponge.Base.{
  ℕ, zero, suc, ◌≤◌, ◌≡◌, refl, ◌⊎◌, true, false, some, List, [], ◌∷◌, ◌++◌, arith, ok, get_or, All,
}
use cs144_sponge.Buffer
use cs144_sponge.ByteStream
use cs144_sponge.ByteStream.Inv.{contents}
use cs144_sponge.WrappingIntegers.{wrap}
use cs144_sponge.StreamReassembler.{HashOrder}
use cs144_sponge.StreamReassembler.Source.{Agrees}
use cs144_sponge.TcpHeader.{default_header}
use cs144_sponge.TcpSegment.{TcpSegment}
use cs144_sponge.TcpSender as Sender
use cs144_sponge.TcpConnection.{TcpConfig, TcpConnection, new, active, tick, max_retx_attempts}
use cs144_sponge.TcpConnection.Sound.{IsGenuine, Sound}
use cs144_sponge.TcpConnection.History.{
  Call, receives, connects, ends, writes, reads, ticks, IsPeer, Session, run, start, new-Sound,
  run_sound, rst_kills,
}
use cs144_sponge.TcpConnection.Reset.{IsReset, IsLastAttempt, tick_limits, tick_gives_up}

abbrev newest_first : HashOrder
newest_first = record { arrange = λ m. m; arranged = λ m. Permᴰ.refl m }

abbrev text : ℕ → ℕ
text i = get_or (10 ∷ 11 ∷ []) i 0

abbrev config : TcpConfig
config = record { rt_timeout = 1000; recv_capacity = 100; send_capacity = 100; fixed_isn = some 7 }

abbrev syn_segment : TcpSegment
syn_segment = record {
  header = record default_header { seqno = 40; syn = true };
  payload = Buffer.of_string [];
}

abbrev data_segment : TcpSegment
data_segment = record {
  header = record default_header { seqno = 41; ackno = 8; ack = true; win = 500 };
  payload = Buffer.of_string (10 ∷ 11 ∷ []);
}

abbrev rst_segment : TcpSegment
rst_segment = record {
  header = record default_header { seqno = 43; rst = true };
  payload = Buffer.of_string [];
}

part_0 : Agrees text 0 (10 ∷ 11 ∷ [])
part_0 zero h = refl
part_0 (suc zero) h = refl
part_0 (suc (suc i)) h = absurd (omega (arith, h))

part_none : (k : ℕ) → Agrees text k []
part_none k i h = absurd (omega (arith, h))

syn-IsGenuine : IsGenuine text 40 syn_segment
unfolding Buffer.str Buffer.of_string
syn-IsGenuine = ((refl, omega arith, part_none 0), omega arith)

data-IsGenuine : IsGenuine text 40 data_segment
unfolding Buffer.str Buffer.of_string wrap
data-IsGenuine = ((0, refl, omega arith, part_0), omega arith)

rst-IsGenuine : IsGenuine text 40 rst_segment
unfolding Buffer.str Buffer.of_string wrap
rst-IsGenuine = ((2, refl, omega arith, part_none 2), omega arith)

abbrev calls : List Call
calls =
    connects
    ∷ writes (1 ∷ 2 ∷ [])
    ∷ receives newest_first syn_segment
    ∷ receives newest_first data_segment
    ∷ reads 1
    ∷ ticks 1500
    ∷ []

calls-IsPeer : All (IsPeer text 40) calls
calls-IsPeer = (tt, (tt, (syn-IsGenuine, (data-IsGenuine, (tt, (tt, tt))))))

run_sound_example :
    (t : Session) × (run (start config 0) calls ≡ ok t)
    × Agrees text 0 (t.given ++ contents t.connection.receiver.reassembler.output)
run_sound_example =
    run_sound text 40 config 0 calls (omega arith) (omega arith) (omega arith) calls-IsPeer

rst_kills_example :
    (t : Session) × (run
        (start config 0)
        (calls ++ (receives newest_first rst_segment ∷ ticks 10 ∷ ends ∷ []))
      ≡ ok t)
    × (active t.connection ≡ false)
rst_kills_example =
    rst_kills text 40 config 0 calls (ticks 10 ∷ ends ∷ []) newest_first rst_segment (omega arith)
      (omega arith) (omega arith) calls-IsPeer rst-IsGenuine (tt, (tt, tt)) refl

fresh-Sound : Sound text 40 100 [] false (new config 0)
fresh-Sound = new-Sound text 40 config 0 (omega arith) (omega arith)

tick_limits_example :
    (c' : TcpConnection) × (tick 5000 (new config 0) ≡ ok c')
    × ((c'.sender.consecutive_retran ≤ max_retx_attempts) ⊎ IsReset c')
tick_limits_example = tick_limits text 40 100 [] false 5000 (new config 0) (omega arith) fresh-Sound

-- A connection whose SYN was sent again eight times.
abbrev waiting : TcpConnection
waiting = record (new config 0) {
  sender = record (Sender.new 100 1000 7) {
    next_seqno = 1;
    retransmission_queue =
        record syn_segment { header = record default_header { seqno = 7; syn = true } } ∷ [];
    last_retrans_seqno = some 7;
    consecutive_retran = 8;
    state = Sender.syn_sent;
    timer = record { rto = 256000; running = true };
  };
}

waiting-IsLastAttempt : IsLastAttempt 256000 waiting
unfolding Sender.new
waiting-IsLastAttempt = ([], _, refl, refl, refl, omega arith, refl, omega arith)

waiting_empty : ByteStream.buffer_empty waiting.sender.stream ≡ true
unfolding ByteStream.buffer_empty Sender.new ByteStream.new
waiting_empty = refl

waiting_open : ByteStream.eof waiting.sender.stream ≡ false
unfolding ByteStream.eof Sender.new ByteStream.new
waiting_open = refl

tick_gives_up_example : (c' : TcpConnection) × (tick 256000 waiting ≡ ok c') × IsReset c'
tick_gives_up_example =
    tick_gives_up 256000 waiting waiting-IsLastAttempt waiting_empty waiting_open
