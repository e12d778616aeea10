-- ===== src/TcpConnection/Plain.antt =====
-- A connection's calls and the data offsets of its segments.
use cs144_sponge.Base.{
  ℕ, ◌≡◌, refl, sym, inl, inr, Bool, true, false, Bool-cases, ◌==◌, List, [], ◌∷◌, arith, ok,
  bind_ok, is_empty, add64, if◌then◌else◌, Option, none, some, subst, All, Result,
}
use cs144_sponge.WrappingIntegers.{WrappingInt32}
use cs144_sponge.ByteStream
use cs144_sponge.StreamReassembler.{HashOrder}
use cs144_sponge.TcpReceiver
use cs144_sponge.TcpReceiver.{TcpReceiver}
use cs144_sponge.TcpSegment
use cs144_sponge.TcpSegment.{TcpSegment, length_in_sequence_space}
use cs144_sponge.TcpSender as Sender
use cs144_sponge.TcpSender.{TcpSender}
use cs144_sponge.TcpSender.Plain as Sending
use cs144_sponge.TcpSender.Plain.{IsPlain, All-snoc, ok-injective}
use cs144_sponge.TcpConnection.{
  TcpConnection, TcpConfig, new, connect, stamp, stamp_with, move_segments, send_segment, kill,
  reset_with, send_rst, note_flags, deliver, note_ack, answer, keep_alive, segment_received, flush,
  write, end_input_stream, advance_time, tick_sender, give_up, close_if_done, tick, is_keep_alive,
}

-- No segment that is to be sent has options, now or when it is sent again.
pub record Plain (c : TcpConnection) : Type 0 where
  pub out : All IsPlain c.segments_out
  pub sending : Sending.Plain c.sender

stamp_with-IsPlain :
    (o : Option WrappingInt32) (w : ℕ) (seg : TcpSegment)
    → IsPlain seg
    → IsPlain (stamp_with o w seg)
unfolding stamp_with
stamp_with-IsPlain none w seg p = p
stamp_with-IsPlain (some a) w seg p = p

move_segments-All :
    (r : TcpReceiver) (q out : List TcpSegment)
    → All IsPlain q
    → All IsPlain out
    → All IsPlain (move_segments r q out)
unfolding move_segments stamp
move_segments-All r [] out v w = w
move_segments-All r (seg ∷ q) out (p, v) w =
    move_segments-All r q _ v (All-snoc out _ w (stamp_with-IsPlain _ _ seg p))

send_segment-Plain : (c : TcpConnection) → Plain c → Plain (send_segment c)
unfolding send_segment
send_segment-Plain c v = record {
  out = move_segments-All c.receiver c.sender.segments_out c.segments_out v.sending.waiting v.out;
  sending = record { waiting = tt; outstanding = v.sending.outstanding };
}

flush-Plain : (c c' : TcpConnection) → flush c ≡ ok c' → Plain c → Plain c'
unfolding flush
flush-Plain c c' e v =
    let (s, e1, e2) = bind_ok (Sender.fill_window c.sender) _ e in
    subst Plain (ok-injective _ _ e2) (
      send_segment-Plain (record c { sender = s })
        (record { out = v.out; sending = Sending.fill_window-Plain c.sender s e1 v.sending }))

pub new-Plain : (cfg : TcpConfig) (random : WrappingInt32) → Plain (new cfg random)
unfolding new Sender.new
new-Plain cfg random = record { out = tt; sending = record { waiting = tt; outstanding = tt } }

pub connect-Plain : (c c' : TcpConnection) → connect c ≡ ok c' → Plain c → Plain c'
unfolding connect
connect-Plain c c' e v = flush-Plain c c' e v

-- What is changed in the streams changes no segment.
pub same-Plain :
    (c c' : TcpConnection)
    → c'.segments_out ≡ c.segments_out
    → c'.sender.segments_out ≡ c.sender.segments_out
    → c'.sender.retransmission_queue ≡ c.sender.retransmission_queue
    → Plain c
    → Plain c'
same-Plain c c' e1 e2 e3 v = record {
  out = subst (All IsPlain) (sym e1) v.out;
  sending = record {
    waiting = subst (All IsPlain) (sym e2) v.sending.waiting;
    outstanding = subst (All IsPlain) (sym e3) v.sending.outstanding;
  };
}

note_flags-Plain : (seg : TcpSegment) (c : TcpConnection) → Plain c → Plain (note_flags seg c)
unfolding note_flags kill
note_flags-Plain seg c v =
    same-Plain c (note_flags seg c) (ground arith) (ground arith) (ground arith) v

deliver-Plain :
    (h : HashOrder) (seg : TcpSegment) (c c' : TcpConnection)
    → deliver h seg c ≡ ok c'
    → Plain c
    → Plain c'
unfolding deliver
deliver-Plain h seg c c' e v =
    same-Plain c c' (ground (arith, e)) (ground (arith, e)) (ground (arith, e)) v

note_ack-Plain : (seg : TcpSegment) (c : TcpConnection) → Plain c → Plain (note_ack seg c)
unfolding note_ack
note_ack-Plain seg c v = elim (Bool-cases seg.header.ack) [
  | inl h ↦ rw h (record {
    out = v.out;
    sending = Sending.ack_received-Plain seg.header.ackno seg.header.win c.sender v.sending;
  })
  | inr h ↦ rw h v
]

chosen : (b : Bool) (x y : TcpConnection) → Plain x → Plain y → Plain (if b then x else y)
chosen true x y v w = v
chosen false x y v w = w

either_way :
    (b : Bool) (r r' : Result TcpConnection) (c : TcpConnection)
    → (r ≡ ok c → Plain c)
    → (r' ≡ ok c → Plain c)
    → (if b then r else r') ≡ ok c
    → Plain c
either_way true r r' c v w e = v e
either_way false r r' c v w e = w e

replied :
    (b : Bool) (s : TcpSender) (c : TcpConnection)
    → Plain (record c { sender = s })
    → Plain (record c { sender = if b then Sender.send_empty_segment s else s })
replied true s c v = record { out = v.out; sending = Sending.send_empty_segment-Plain s v.sending }
replied false s c v = v

answer-Plain : (seg : TcpSegment) (c c' : TcpConnection) → answer seg c ≡ ok c' → Plain c → Plain c'
unfolding answer
answer-Plain seg c c' e v =
    either_way (length_in_sequence_space seg == 0) (ok c) _ c'
      (λ k. subst Plain (ok-injective _ _ k) v)
      (λ k.
        let (s, e1, e2) = bind_ok (Sender.fill_window c.sender) _ k in
        subst Plain (ok-injective _ _ e2) (
          replied (is_empty s.segments_out) s c
            (record { out = v.out; sending = Sending.fill_window-Plain c.sender s e1 v.sending })))
      e

keep_alive-Plain : (seg : TcpSegment) (c : TcpConnection) → Plain c → Plain (keep_alive seg c)
unfolding keep_alive
keep_alive-Plain seg c v =
    chosen (is_keep_alive seg (TcpReceiver.ackno c.receiver))
      (record c { sender = Sender.send_empty_segment c.sender }) c
      (record { out = v.out; sending = Sending.send_empty_segment-Plain c.sender v.sending }) v

pub segment_received-Plain :
    (h : HashOrder) (seg : TcpSegment) (c c' : TcpConnection)
    → segment_received h seg c ≡ ok c'
    → Plain c
    → Plain c'
unfolding segment_received
segment_received-Plain h seg c c' e v =
    let (c1, e1, e2) = bind_ok (deliver h seg (note_flags seg c)) _ e in
    let (c2, e3, e4) = bind_ok (answer seg (note_ack seg c1)) _ e2 in
    subst Plain (ok-injective _ _ e4) (
      send_segment-Plain _ (
        keep_alive-Plain seg c2 (
          answer-Plain seg _ c2 e3
            (note_ack-Plain seg c1 (deliver-Plain h seg _ c1 e1 (note_flags-Plain seg c v))))))

pub write-Plain :
    (d : List ℕ) (c c' : TcpConnection) (n : ℕ) → write d c ≡ ok (n, c') → Plain c → Plain c'
unfolding write
write-Plain d c c' n e v =
    let c0 : TcpConnection = record c {
      sender = record (c.sender) { stream = (ByteStream.write d c.sender.stream).1 };
    } in
    let (c1, e1, e2) = bind_ok (flush c0) _ e in
    subst (λ (p : ℕ × TcpConnection). Plain p.1) (ok-injective _ _ e2)
      (flush-Plain c0 c1 e1 (same-Plain c c0 refl refl refl v))

pub end_input_stream-Plain :
    (c c' : TcpConnection) → end_input_stream c ≡ ok c' → Plain c → Plain c'
unfolding end_input_stream
end_input_stream-Plain c c' e v = flush-Plain _ c' e (same-Plain c _ refl refl refl v)

advance_time-Plain :
    (ms : ℕ) (c c' : TcpConnection) → advance_time ms c ≡ ok c' → Plain c → Plain c'
unfolding advance_time
advance_time-Plain ms c c' e v =
    let c1 : TcpConnection = record c { tick = add64 c.tick ms } in
    let v1 : Plain c1 = same-Plain c c1 refl refl refl v in
    either_way _ (flush c1) (ok c1) c' (λ k. flush-Plain c1 c' k v1)
      (λ k. subst Plain (ok-injective _ _ k) v1) e

tick_sender-Plain : (ms : ℕ) (c c' : TcpConnection) → tick_sender ms c ≡ ok c' → Plain c → Plain c'
unfolding tick_sender
tick_sender-Plain ms c c' e v =
    let (s, e1, e2) = bind_ok (Sender.tick ms c.sender) _ e in
    let c1 : TcpConnection = record c { sender = s } in
    let v1 : Plain c1 = record {
      out = v.out;
      sending = Sending.tick-Plain ms c.sender s e1 v.sending;
    } in
    subst Plain (ok-injective _ _ e2)
      (chosen (is_empty s.segments_out) c1 (send_segment c1) v1 (send_segment-Plain c1 v1))

reset_with-Plain :
    (q : List TcpSegment) (c c' : TcpConnection)
    → reset_with q c ≡ ok c'
    → All IsPlain q
    → Plain c
    → Plain c'
unfolding reset_with kill TcpSegment.moved_from
reset_with-Plain [] c c' e p v = cc
reset_with-Plain (seg ∷ q) c c' e (p, ps) v = subst Plain (ok-injective _ _ e) (record {
  out = (p, tt);
  sending = record { waiting = (p, ps); outstanding = v.sending.outstanding };
})

give_up-Plain : (c c' : TcpConnection) → give_up c ≡ ok c' → Plain c → Plain c'
unfolding give_up send_rst
give_up-Plain c c' e v =
    let s : TcpSender = Sender.send_empty_segment c.sender in
    let w : Sending.Plain s = Sending.send_empty_segment-Plain c.sender v.sending in
    either_way _ _ (ok c) c'
      (λ k.
        reset_with-Plain s.segments_out (record c { sender = s }) c' k w.waiting
          (record { out = v.out; sending = w }))
      (λ k. subst Plain (ok-injective _ _ k) v) e

close_if_done-Plain : (c : TcpConnection) → Plain c → Plain (close_if_done c)
unfolding close_if_done
close_if_done-Plain c v =
    same-Plain c (close_if_done c) (ground arith) (ground arith) (ground arith) v

pub tick-Plain : (ms : ℕ) (c c' : TcpConnection) → tick ms c ≡ ok c' → Plain c → Plain c'
unfolding tick
tick-Plain ms c c' e v =
    let (c1, e1, e2) = bind_ok (advance_time ms c) _ e in
    let (c2, e3, e4) = bind_ok (tick_sender ms c1) _ e2 in
    let (c3, e5, e6) = bind_ok (give_up c2) _ e4 in
    subst Plain (ok-injective _ _ e6) (
      close_if_done-Plain c3
        (give_up-Plain c2 c3 e5 (tick_sender-Plain ms c1 c2 e3 (advance_time-Plain ms c c1 e1 v))))
