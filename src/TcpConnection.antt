-- ===== src/TcpConnection.antt =====
-- libsponge/tcp_connection.{hh,cc}: an endpoint of a connection.
pub mod Sound
pub mod History
pub mod Ended
pub mod Plain
pub mod Start
pub mod Reset
pub mod Reply
mod Examples
use cs144_sponge.Base.{
  ℕ, ◌+◌, ◌*◌, Bool, true, false, not, ◌&&◌, ◌||◌, Option, none, some, has_value, List, [], ◌∷◌,
  ◌++◌, ltb, leb, ◌==◌, if◌then◌else◌, is_empty, u16, add64, sub64, Result, ok, err, undefined,
  ◌>>=◌,
}
use cs144_sponge.WrappingIntegers.{WrappingInt32, minus, unwrap}
use cs144_sponge.ByteStream
use cs144_sponge.ByteStream.{ByteStream}
use cs144_sponge.StreamReassembler.{HashOrder}
use cs144_sponge.TcpSegment
use cs144_sponge.TcpSegment.{TcpSegment, length_in_sequence_space}
use cs144_sponge.TcpReceiver
use cs144_sponge.TcpReceiver.{TcpReceiver}
use cs144_sponge.TcpSender as Sender
use cs144_sponge.TcpSender.{TcpSender}
use cs144_sponge.TcpState.{TcpState, SenderSummary, fin_sent, fin_acked, sender_summary, summarize}

pub record TcpConfig : Type 0 where
  pub rt_timeout : ℕ
  pub recv_capacity : ℕ
  pub send_capacity : ℕ
  pub fixed_isn : Option WrappingInt32

-- `TCPConfig::MAX_RETX_ATTEMPTS`
abbrev pub max_retx_attempts : ℕ
max_retx_attempts = 8

pub record TcpConnection : Type 0 where
  pub cfg : TcpConfig
  pub receiver : TcpReceiver
  pub sender : TcpSender
  pub segments_out : List TcpSegment
  pub linger_after_streams_finish : Bool
  pub close : Bool
  pub tick : ℕ
  pub rece_tick : ℕ
  pub end_intput : Bool
  pub isn_receiver : Option WrappingInt32

abbrev pub value_or : Option WrappingInt32 → WrappingInt32 → WrappingInt32
value_or none random = random
value_or (some isn) random = isn

-- `random` is the number that the sender draws where the configuration fixes none.
unfoldable pub new : TcpConfig → WrappingInt32 → TcpConnection
new cfg random = record {
  cfg = cfg;
  receiver = TcpReceiver.new cfg.recv_capacity;
  sender = Sender.new cfg.send_capacity cfg.rt_timeout (value_or cfg.fixed_isn random);
  segments_out = [];
  linger_after_streams_finish = true;
  close = false;
  tick = 0;
  rece_tick = 0;
  end_intput = false;
  isn_receiver = none;
}

unfoldable pub active : TcpConnection → Bool
active c = not c.close

unfoldable pub state : TcpConnection → TcpState
state c = summarize c.sender c.receiver (active c) c.linger_after_streams_finish

unfoldable pub inbound_stream : TcpConnection → ByteStream
inbound_stream c = TcpReceiver.stream_out c.receiver

unfoldable pub remaining_outbound_capacity : TcpConnection → ℕ
remaining_outbound_capacity c = ByteStream.remaining_capacity c.sender.stream

unfoldable pub bytes_in_flight : TcpConnection → ℕ
bytes_in_flight c = Sender.bytes_in_flight c.sender

unfoldable pub unassembled_bytes : TcpConnection → ℕ
unassembled_bytes c = TcpReceiver.unassembled_bytes c.receiver

unfoldable pub time_since_last_segment_received : TcpConnection → ℕ
time_since_last_segment_received c = sub64 c.tick c.rece_tick

-- The acknowledgement and the window that a segment leaves with; the window field has 16 bits.
pub stamp_with : Option WrappingInt32 → ℕ → TcpSegment → TcpSegment
stamp_with none window seg = seg
stamp_with (some ackno) window seg = record seg {
  header = record (seg.header) { ack = true; ackno = ackno; win = u16 window };
}

pub stamp : TcpReceiver → TcpSegment → TcpSegment
unfolding stamp_with
stamp r seg = stamp_with (TcpReceiver.ackno r) (TcpReceiver.window_size r) seg

-- The loop over the sender's queue.
pub move_segments : TcpReceiver → List TcpSegment → List TcpSegment → List TcpSegment
move_segments r [] out = out
move_segments r (seg ∷ q) out = move_segments r q (out ++ (stamp r seg ∷ []))

unfoldable pub send_segment : TcpConnection → TcpConnection
send_segment c = record c {
  sender = record (c.sender) { segments_out = [] };
  segments_out = move_segments c.receiver c.sender.segments_out c.segments_out;
}

pub in_window : TcpSegment → Option WrappingInt32 → Option WrappingInt32 → ℕ → Bool
in_window seg none ackno window = true
in_window seg (some isn) none window = true
in_window seg (some isn) (some ackno) window =
    let len = length_in_sequence_space seg in
    let seg_start = unwrap seg.header.seqno isn 0 in
    let seg_end = add64 seg_start (if len == 0 then 0 else sub64 len 1) in
    let window_start = unwrap ackno isn 0 in
    let window_end = add64 window_start window in
    if ltb seg_end window_start then false else if leb window_end seg_start then false else true

unfoldable pub check_segment_in_window : TcpSegment → TcpConnection → Bool
unfolding in_window
check_segment_in_window seg c =
    in_window seg c.isn_receiver (TcpReceiver.ackno c.receiver) (TcpReceiver.window_size c.receiver)

-- Both streams are set to the error state, and the connection is closed.
pub kill : TcpConnection → TcpConnection
kill c = record c {
  receiver = record (c.receiver) {
    reassembler = record (c.receiver.reassembler) {
      output = ByteStream.set_error c.receiver.reassembler.output;
    };
  };
  sender = record (c.sender) { stream = ByteStream.set_error c.sender.stream };
  close = true;
}

-- The front of the sender's queue is moved from and not popped; it becomes the only segment to send.
pub reset_with : List TcpSegment → TcpConnection → Result TcpConnection
unfolding kill
reset_with [] c = err undefined
reset_with (seg ∷ q) c = ok (
    kill (record c {
      sender = record (c.sender) { segments_out = TcpSegment.moved_from seg ∷ q };
      segments_out = record seg { header = record (seg.header) { rst = true } } ∷ [];
    }))

unfoldable pub send_rst : TcpConnection → Result TcpConnection
unfolding reset_with
send_rst c =
    let s = Sender.send_empty_segment c.sender in
    reset_with s.segments_out (record c { sender = s })

abbrev has_sent_fin : SenderSummary → Bool
has_sent_fin fin_sent = true
has_sent_fin fin_acked = true
has_sent_fin _ = false

-- The RST, the initial number and the FIN of a segment.
pub note_flags : TcpSegment → TcpConnection → TcpConnection
unfolding kill
note_flags seg c =
    let c1 = record c { rece_tick = c.tick } in
    let c2 = if seg.header.rst then kill c1 else c1 in
    let c3 = record c2 {
      isn_receiver = if seg.header.syn then some seg.header.seqno else c2.isn_receiver;
    } in
    record c3 {
      linger_after_streams_finish =
          if seg.header.fin && not (has_sent_fin (sender_summary c3.sender))
          then false
          else c3.linger_after_streams_finish;
    }

pub deliver : HashOrder → TcpSegment → TcpConnection → Result TcpConnection
deliver h seg c =
    if check_segment_in_window seg c
    then (TcpReceiver.segment_received h seg c.receiver >>= λ r. ok (record c { receiver = r }))
    else ok c

pub note_ack : TcpSegment → TcpConnection → TcpConnection
note_ack seg c =
    if seg.header.ack
    then record c { sender = Sender.ack_received seg.header.ackno seg.header.win c.sender }
    else c

-- At least one segment answers one that occupies sequence numbers.
pub answer : TcpSegment → TcpConnection → Result TcpConnection
answer seg c =
    if length_in_sequence_space seg == 0
    then ok c
    else (Sender.fill_window c.sender >>= λ s.
        ok (record c {
          sender = if is_empty s.segments_out then Sender.send_empty_segment s else s;
        }))

pub is_keep_alive : TcpSegment → Option WrappingInt32 → Bool
is_keep_alive seg none = false
is_keep_alive seg (some ackno) =
    length_in_sequence_space seg == 0 && seg.header.seqno == minus ackno 1

pub keep_alive : TcpSegment → TcpConnection → TcpConnection
unfolding is_keep_alive
keep_alive seg c =
    if is_keep_alive seg (TcpReceiver.ackno c.receiver)
    then record c { sender = Sender.send_empty_segment c.sender }
    else c

unfoldable pub segment_received : HashOrder → TcpSegment → TcpConnection → Result TcpConnection
segment_received h seg c = deliver h seg (note_flags seg c) >>= λ c1.
    answer seg (note_ack seg c1) >>= λ c2. ok (send_segment (keep_alive seg c2))

-- `_sender.fill_window()` and `send_segment()`
pub flush : TcpConnection → Result TcpConnection
flush c = Sender.fill_window c.sender >>= λ s. ok (send_segment (record c { sender = s }))

-- The count of bytes that were taken, and the connection after.
unfoldable pub write : List ℕ → TcpConnection → Result (ℕ × TcpConnection)
write d c =
    let (n, out) = ByteStream.write d c.sender.stream in
    flush (record c { sender = record (c.sender) { stream = out } }) >>= λ c'. ok (n, c')

unfoldable pub end_input_stream : TcpConnection → Result TcpConnection
end_input_stream c =
    flush
      (record c { sender = record (c.sender) { stream = ByteStream.end_input c.sender.stream } })

unfoldable pub connect : TcpConnection → Result TcpConnection
connect c = flush c

-- The parts of `tick`, in their order.
pub advance_time : ℕ → TcpConnection → Result TcpConnection
advance_time ms c =
    let c' = record c { tick = add64 c.tick ms } in
    if not (ByteStream.buffer_empty c.sender.stream) || ByteStream.eof c.sender.stream
    then flush c'
    else ok c'

pub tick_sender : ℕ → TcpConnection → Result TcpConnection
tick_sender ms c = Sender.tick ms c.sender >>= λ s.
    let c' = record c { sender = s } in ok (if is_empty s.segments_out then c' else send_segment c')

pub give_up : TcpConnection → Result TcpConnection
give_up c =
    if ltb max_retx_attempts (Sender.consecutive_retransmissions c.sender) then send_rst c else ok c

-- The three prerequisites of a clean end.
pub is_done : TcpConnection → Bool
is_done c =
    (unassembled_bytes c == 0)
    && ByteStream.eof (inbound_stream c)
    && ByteStream.eof c.sender.stream
    && (bytes_in_flight c == 0)

pub close_if_done : TcpConnection → TcpConnection
unfolding is_done
close_if_done c =
    let late = leb (10 * c.cfg.rt_timeout) (time_since_last_segment_received c) in
    let linger = if late then false else c.linger_after_streams_finish in
    if is_done c
    then record c { linger_after_streams_finish = linger; close = if linger then c.close else true }
    else c

unfoldable pub tick : ℕ → TcpConnection → Result TcpConnection
tick ms c = advance_time ms c >>= λ c1.
    tick_sender ms c1 >>= λ c2. give_up c2 >>= λ c3. ok (close_if_done c3)

-- What the destructor sends.
unfoldable pub destroy : TcpConnection → Result TcpConnection
destroy c = if active c then send_rst c else ok c
