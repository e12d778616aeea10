-- ===== src/TcpConnection/Ended.antt =====
-- A connection's calls and the end of its outbound stream.
use cs144_sponge.Base.{
  ℕ, ◌≡◌, sym, ap, inl, inr, Bool-cases, ◌==◌, ◌∙◌, List, [], ◌∷◌, arith, ok, ◌>>=◌, bind_ok,
  is_empty, add64, if◌then◌else◌,
}
use cs144_sponge.ByteStream
use cs144_sponge.StreamReassembler.{HashOrder}
use cs144_sponge.TcpSegment.{TcpSegment, length_in_sequence_space}
use cs144_sponge.TcpSender as Sender
use cs144_sponge.TcpSender.{TcpSender}
use cs144_sponge.TcpSender.Ended as Sending
use cs144_sponge.TcpConnection.{
  TcpConnection, connect, send_segment, kill, reset_with, send_rst, note_flags, deliver, note_ack,
  answer, keep_alive, segment_received, flush, write, advance_time, tick_sender, give_up,
  close_if_done, tick,
}

abbrev pub Same : TcpConnection → TcpConnection → Type 0
Same c c' = Sending.Same c.sender c'.sender

flush-Same : (c c' : TcpConnection) → flush c ≡ ok c' → Same c c'
unfolding flush send_segment
flush-Same c c' e =
    let (s, e1, e2) = bind_ok (Sender.fill_window c.sender) _ e in
    ground (arith, e2, Sending.fill_window-Same c.sender s e1)

pub connect-Same : (c c' : TcpConnection) → connect c ≡ ok c' → Same c c'
unfolding connect
connect-Same c c' e = flush-Same c c' e

note_flags-Same : (seg : TcpSegment) (c : TcpConnection) → Same c (note_flags seg c)
unfolding note_flags kill ByteStream.set_error
note_flags-Same seg c = ground arith

deliver-Same :
    (h : HashOrder) (seg : TcpSegment) (c c' : TcpConnection) → deliver h seg c ≡ ok c' → Same c c'
unfolding deliver
deliver-Same h seg c c' e = ground (arith, e)

note_ack-Same : (seg : TcpSegment) (c : TcpConnection) → Same c (note_ack seg c)
unfolding note_ack
note_ack-Same seg c =
    ground (arith, Sending.ack_received-Same seg.header.ackno seg.header.win c.sender)

answer-Same : (seg : TcpSegment) (c c' : TcpConnection) → answer seg c ≡ ok c' → Same c c'
unfolding answer
answer-Same seg c c' e = elim (Bool-cases (length_in_sequence_space seg == 0)) [
  | inl h ↦ ground (arith, e, h)
  | inr h ↦
      let (s, e1, e2) =
        bind_ok (Sender.fill_window c.sender)
          (λ s. ok (record c {
            sender = if is_empty s.segments_out then Sender.send_empty_segment s else s;
          }))
          (ap
              (λ x.
                if x
                then ok c
                else (Sender.fill_window c.sender >>= λ s. ok (record c {
                  sender = if is_empty s.segments_out then Sender.send_empty_segment s else s;
                })))
              (sym h)
            ∙ e) in
      unfold Sender.send_empty_segment in ground (arith, e2, Sending.fill_window-Same c.sender s e1)
]

keep_alive-Same : (seg : TcpSegment) (c : TcpConnection) → Same c (keep_alive seg c)
unfolding keep_alive Sender.send_empty_segment
keep_alive-Same seg c = ground arith

pub segment_received-Same :
    (h : HashOrder) (seg : TcpSegment) (c c' : TcpConnection)
    → segment_received h seg c ≡ ok c'
    → Same c c'
unfolding segment_received send_segment
segment_received-Same h seg c c' e =
    let (c1, e1, e2) = bind_ok (deliver h seg (note_flags seg c)) _ e in
    let (c2, e3, e4) = bind_ok (answer seg (note_ack seg c1)) _ e2 in
    ground (
      arith,
      e4,
      note_flags-Same seg c,
      deliver-Same h seg _ c1 e1,
      note_ack-Same seg c1,
      answer-Same seg _ c2 e3,
      keep_alive-Same seg c2,
    )

pub write-Same : (d : List ℕ) (c c' : TcpConnection) (n : ℕ) → write d c ≡ ok (n, c') → Same c c'
unfolding write ByteStream.write
write-Same d c c' n e =
    let c0 : TcpConnection = record c {
      sender = record (c.sender) { stream = (ByteStream.write d c.sender.stream).1 };
    } in
    let (c1, e1, e2) = bind_ok (flush c0) _ e in ground (arith, e2, flush-Same c0 c1 e1)

advance_time-Same : (ms : ℕ) (c c' : TcpConnection) → advance_time ms c ≡ ok c' → Same c c'
unfolding advance_time
advance_time-Same ms c c' e = ground (arith, e, flush-Same (record c { tick = add64 c.tick ms }) c')

tick_sender-Same : (ms : ℕ) (c c' : TcpConnection) → tick_sender ms c ≡ ok c' → Same c c'
unfolding tick_sender send_segment
tick_sender-Same ms c c' e =
    let (s, e1, e2) = bind_ok (Sender.tick ms c.sender) _ e in
    ground (arith, e2, Sending.tick-Same ms c.sender s e1)

reset_with-Same : (q : List TcpSegment) (c c' : TcpConnection) → reset_with q c ≡ ok c' → Same c c'
unfolding reset_with kill ByteStream.set_error
reset_with-Same [] c c' e = cc
reset_with-Same (seg ∷ q) c c' e = ground (arith, e)

give_up-Same : (c c' : TcpConnection) → give_up c ≡ ok c' → Same c c'
unfolding give_up send_rst Sender.send_empty_segment
give_up-Same c c' e =
    let s : TcpSender = Sender.send_empty_segment c.sender in
    ground (arith, e, reset_with-Same s.segments_out (record c { sender = s }) c')

close_if_done-Same : (c : TcpConnection) → Same c (close_if_done c)
unfolding close_if_done
close_if_done-Same c = ground arith

pub tick-Same : (ms : ℕ) (c c' : TcpConnection) → tick ms c ≡ ok c' → Same c c'
unfolding tick
tick-Same ms c c' e =
    let (c1, e1, e2) = bind_ok (advance_time ms c) _ e in
    let (c2, e3, e4) = bind_ok (tick_sender ms c1) _ e2 in
    let (c3, e5, e6) = bind_ok (give_up c2) _ e4 in
    ground (
      arith,
      e6,
      advance_time-Same ms c c1 e1,
      tick_sender-Same ms c1 c2 e3,
      give_up-Same c2 c3 e5,
      close_if_done-Same c3,
    )
