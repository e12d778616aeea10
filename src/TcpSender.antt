-- ===== src/TcpSender.antt =====
-- libsponge/tcp_sender.{hh,cc}: the sending half of a connection.
pub mod Ended
pub mod Plain
pub mod Start
pub mod Segments
pub mod Round
pub mod Fill
pub mod Outstanding
pub mod Timer
pub mod Shrunk
pub mod Safe
mod Examples
use cs144_sponge.Base.{
  ℕ, zero, suc, ◌+◌, ◌*◌, Bool, true, false, not, ◌&&◌, ◌||◌, Option, none, some, List, [], ◌∷◌,
  ◌++◌, ltb, leb, ◌==◌, if◌then◌else◌, length, add64, sub64, u32, Result, ok, err, undefined,
  out_of_fuel, ◌>>=◌,
}
use cs144_sponge.WrappingIntegers.{WrappingInt32, wrap, unwrap}
use cs144_sponge.Buffer
use cs144_sponge.ByteStream
use cs144_sponge.ByteStream.{ByteStream}
use cs144_sponge.TcpHeader.{TcpHeader, default_header}
use cs144_sponge.TcpSegment.{TcpSegment, length_in_sequence_space}

pub record RetransmissionTimer : Type 0 where
  pub rto : ℕ
  pub running : Bool

unfoldable pub start_timer : ℕ → RetransmissionTimer
start_timer timeout = record { rto = timeout; running = true }

unfoldable pub stop_timer : RetransmissionTimer → RetransmissionTimer
stop_timer t = record t { running = false }

pub data State : Type 0 where
  init syn_sent fin_sent : State

abbrev pub is_init : State → Bool
is_init init = true
is_init _ = false

abbrev pub is_syn_sent : State → Bool
is_syn_sent syn_sent = true
is_syn_sent _ = false

abbrev pub is_fin_sent : State → Bool
is_fin_sent fin_sent = true
is_fin_sent _ = false

-- The queues stand front first.
pub record TcpSender : Type 0 where
  pub isn : WrappingInt32
  pub segments_out : List TcpSegment
  pub initial_retransmission_timeout : ℕ
  pub stream : ByteStream
  pub next_seqno : ℕ
  pub last_retrans_seqno : Option WrappingInt32
  pub retransmission_queue : List TcpSegment
  pub outstanding_bytes : ℕ
  pub consecutive_retran : ℕ
  pub rto : ℕ
  pub window_size : ℕ
  pub ack : WrappingInt32
  pub window_probe : Bool
  pub state : State
  pub timer : RetransmissionTimer

-- `TCPConfig::MAX_PAYLOAD_SIZE`
abbrev pub max_payload_size : ℕ
max_payload_size = 1000

-- `fixed_isn.value_or(...)`: without a fixed number the system's random one is taken.
unfoldable pub new : ℕ → ℕ → WrappingInt32 → TcpSender
new capacity retx_timeout isn = record {
  isn = isn;
  segments_out = [];
  initial_retransmission_timeout = retx_timeout;
  stream = ByteStream.new capacity;
  next_seqno = 0;
  last_retrans_seqno = some 0;
  retransmission_queue = [];
  outstanding_bytes = 0;
  consecutive_retran = 0;
  rto = retx_timeout;
  window_size = 1;
  ack = isn;
  window_probe = false;
  state = init;
  timer = record { rto = 0; running = false };
}

-- The absolute number that is acknowledged.
abbrev pub ack_absolute : TcpSender → ℕ
ack_absolute s = unwrap s.ack s.isn 0

unfoldable pub bytes_in_flight : TcpSender → ℕ
bytes_in_flight s = sub64 s.next_seqno (ack_absolute s)

unfoldable pub next_seqno : TcpSender → WrappingInt32
next_seqno s = wrap s.next_seqno s.isn

-- `_window_size - bytes_in_flight()`, in 64 bits.
unfoldable pub space : TcpSender → ℕ
space s = sub64 s.window_size (bytes_in_flight s)

-- What one round of `fill_window` decides before it reads.
pub is_first : TcpSender → Bool
is_first s = ByteStream.bytes_read s.stream == 0 && is_init s.state

pub to_read : TcpSender → ℕ
to_read s =
    let n = if is_first s then sub64 (space s) 1 else space s in
    if leb max_payload_size n then max_payload_size else n

pub takes_fin : TcpSender → List ℕ → ByteStream → Bool
takes_fin s payload stream =
    let syn = is_first s in
    let len = length payload + (if syn then 1 else 0) in
    (ByteStream.eof stream && (syn || is_syn_sent s.state)) && leb (add64 len 1) (space s)

-- The segment of a round.
pub make_segment : TcpSender → List ℕ → ByteStream → TcpSegment
make_segment s payload stream = record {
  header = record default_header {
    seqno = next_seqno s;
    syn = is_first s;
    fin = takes_fin s payload stream;
  };
  payload = Buffer.of_string payload;
}

pub state_after : TcpSender → List ℕ → ByteStream → State
state_after s payload stream =
    if takes_fin s payload stream then fin_sent else if is_first s then syn_sent else s.state

-- The segment is sent, recorded, and the timer runs.
pub emit : TcpSegment → TcpSender → TcpSender
emit seg s = record s {
  next_seqno = add64 s.next_seqno (length_in_sequence_space seg);
  segments_out = s.segments_out ++ (seg ∷ []);
  retransmission_queue = s.retransmission_queue ++ (seg ∷ []);
  timer =
      if not s.timer.running && ltb 0 (length_in_sequence_space seg)
      then start_timer s.rto
      else s.timer;
}

-- A round of the loop: the sender after it, and whether the loop goes on (`break` ends it).
pub round : TcpSender → Result (TcpSender × Bool)
round s = ByteStream.read s.stream (to_read s) >>= λ p.
    let seg = make_segment s p.0 p.1 in
    let s' = record s { stream = p.1; state = state_after s p.0 p.1 } in
    if length_in_sequence_space seg == 0 then ok (s', false) else ok (emit seg s', true)

pub wants_more : TcpSender → Bool
wants_more s = not (space s == 0) && not (is_fin_sent s.state)

pub fill_rounds : ℕ → TcpSender → Result TcpSender
fill_rounds zero s = err out_of_fuel
fill_rounds (suc fuel) s = elim (wants_more s) [
  | false ↦ ok s
  | true ↦ round s >>= λ r. elim r.1 [ true ↦ fill_rounds fuel r.0 | false ↦ ok r.0 ]
]

-- A round that goes on sends the SYN, the FIN or a byte of the stream at least.
unfoldable pub fill_window : TcpSender → Result TcpSender
fill_window s = fill_rounds (ByteStream.buffer_size s.stream + 4) s

-- The loop that takes acknowledged segments off the queue.
pub drop_acked : WrappingInt32 → ℕ → List TcpSegment → List TcpSegment
drop_acked isn ackno [] = []
drop_acked isn ackno (seg ∷ q) =
    let rest = drop_acked isn ackno q in
    if ltb ackno (add64 (unwrap seg.header.seqno isn 0) (length_in_sequence_space seg))
    then seg ∷ q
    else rest

pub timer_for : List TcpSegment → ℕ → RetransmissionTimer → RetransmissionTimer
unfolding start_timer stop_timer
timer_for [] rto t = stop_timer t
timer_for (seg ∷ q) rto t = start_timer rto

pub set_window : ℕ → TcpSender → TcpSender
set_window window_size s = record s {
  window_size = if window_size == 0 then 1 else window_size;
  window_probe = window_size == 0;
}

-- The early return: the number is beyond what was sent, or not beyond what is acknowledged.
pub is_ignored : WrappingInt32 → TcpSender → Bool
is_ignored ackno s = let u = unwrap ackno s.isn 0 in ltb s.next_seqno u || leb u (ack_absolute s)

-- What follows it.
pub advance : WrappingInt32 → TcpSender → TcpSender
advance ackno s =
    let q = drop_acked s.isn (unwrap ackno s.isn 0) s.retransmission_queue in
    record s {
      ack = ackno;
      rto = s.initial_retransmission_timeout;
      retransmission_queue = q;
      timer = timer_for q s.initial_retransmission_timeout s.timer;
      consecutive_retran = 0;
    }

unfoldable pub ack_received : WrappingInt32 → ℕ → TcpSender → TcpSender
ack_received ackno window_size s =
    let s' = set_window window_size s in if is_ignored ackno s' then s' else advance ackno s'

abbrev is_last : Option WrappingInt32 → WrappingInt32 → Bool
is_last none seqno = false
is_last (some last) seqno = last == seqno

-- The counting of `retransmit`, under `if (_window_size)`.
pub count_retransmission : WrappingInt32 → TcpSender → TcpSender
count_retransmission seqno s = if s.window_size == 0 then s else record s {
  consecutive_retran =
      if is_last s.last_retrans_seqno seqno then u32 (s.consecutive_retran + 1) else 1;
  last_retrans_seqno = some seqno;
  rto = if s.window_probe then s.rto else u32 (s.rto * 2);
}

pub retransmit_front : List TcpSegment → TcpSender → Result TcpSender
unfolding count_retransmission start_timer
retransmit_front [] s = err undefined
retransmit_front (seg ∷ q) s =
    let s' =
      count_retransmission seg.header.seqno
        (record s { segments_out = s.segments_out ++ (seg ∷ []) }) in
    ok (record s' { timer = start_timer s'.rto })

unfoldable pub retransmit : TcpSender → Result TcpSender
unfolding retransmit_front
retransmit s = retransmit_front s.retransmission_queue s

-- `timer.time_passed` with `retransmit` as its callback.
unfoldable pub tick : ℕ → TcpSender → Result TcpSender
unfolding retransmit
tick ms s =
    if not s.timer.running
    then ok s
    else if ltb ms s.timer.rto
    then ok (record s { timer = record (s.timer) { rto = sub64 s.timer.rto ms } })
    else retransmit s

unfoldable pub consecutive_retransmissions : TcpSender → ℕ
consecutive_retransmissions s = s.consecutive_retran

unfoldable pub send_empty_segment : TcpSender → TcpSender
unfolding next_seqno Buffer.empty
send_empty_segment s = record s {
  segments_out =
      s.segments_out
      ++ (record { header = record default_header { seqno = next_seqno s }; payload = Buffer.empty }
          ∷ []);
}
