-- ===== src/TcpSender/Round.antt =====
-- One round of `fill_window`.
use cs144_sponge.Base.{
  ℕ, ◌+◌, ◌≤◌, ◌<◌, ◌≡◌, refl, sym, ap, ◌∙◌, Bool, true, false, inl, inr, List, [], ◌∷◌, ◌++◌,
  arith, length, take, drop, length-take, length-drop, take-append-drop, Bool-cases, ◌==◌, ==_iff,
  if◌then◌else◌, add64, ok, IsU64, min,
}
use cs144_sponge.WrappingIntegers.{wrap}
use cs144_sponge.Buffer
use cs144_sponge.ByteStream.{ByteStream}
use cs144_sponge.ByteStream.Inv as Stream
use cs144_sponge.ByteStream.Inv.{contents, Left, read_ok}
use cs144_sponge.TcpSegment.{TcpSegment, length_in_sequence_space}
use cs144_sponge.TcpSender.{
  TcpSender, is_init, is_fin_sent, max_payload_size, next_seqno, space, start_timer, is_first,
  to_read, takes_fin, make_segment, state_after, emit, round, wants_more,
}
use cs144_sponge.TcpSender.Segments.{IsSmall}

-- What the loop has left to do: bytes to read, the SYN and the FIN.
abbrev pub work : TcpSender → ℕ
work s =
    length (contents s.stream)
    + (if is_init s.state then 1 else 0)
    + (if is_fin_sent s.state then 0 else 1)

-- A round that goes on: it sends `seg`.
pub record Sent (s : TcpSender) (seg : TcpSegment) (s' : TcpSender) : Type 0 where
  pub stream_valid : Stream.Inv s'.stream
  pub bytes : contents s.stream ≡ Buffer.str seg.payload ++ contents s'.stream
  pub small : IsSmall seg
  pub numbered : seg.header.seqno ≡ wrap s.next_seqno s.isn
  pub advanced : s'.next_seqno ≡ add64 s.next_seqno (length_in_sequence_space seg)
  pub out : s'.segments_out ≡ s.segments_out ++ (seg ∷ [])
  pub recorded : s'.retransmission_queue ≡ s.retransmission_queue ++ (seg ∷ [])
  pub fits : length_in_sequence_space seg ≤ space s
  pub nonempty : 0 < length_in_sequence_space seg
  pub less : work s' < work s
  pub running : s'.timer.running ≡ true
  pub same_isn : s'.isn ≡ s.isn
  pub same_ack : s'.ack ≡ s.ack
  pub same_window : s'.window_size ≡ s.window_size

is_first-is_init : (s : TcpSender) → is_first s ≡ true → is_init s.state ≡ true
unfolding is_first
is_first-is_init s e = ground arith

space-IsU64 : (s : TcpSender) → IsU64 (space s)
unfolding space
space-IsU64 s = omega arith

-- A round that ends the loop: there was nothing to send.
pub record Idle (s : TcpSender) (s' : TcpSender) : Type 0 where
  pub stream_valid : Stream.Inv s'.stream
  pub drained : contents s.stream ≡ []
  pub drained_after : contents s'.stream ≡ []
  pub same_next : s'.next_seqno ≡ s.next_seqno
  pub same_out : s'.segments_out ≡ s.segments_out
  pub same_queue : s'.retransmission_queue ≡ s.retransmission_queue
  pub same_timer : s'.timer ≡ s.timer
  pub same_isn : s'.isn ≡ s.isn
  pub same_ack : s'.ack ≡ s.ack
  pub same_window : s'.window_size ≡ s.window_size

empty_of_length : (l : List ℕ) → length l ≡ 0 → l ≡ []
empty_of_length [] e = refl
empty_of_length (x ∷ l) e = absurd (omega arith)

module _ (s : TcpSender) (payload : List ℕ) (stream : ByteStream) (v : Stream.Inv s.stream)
    (read : payload ≡ take (to_read s) (contents s.stream))
    (left : Left s.stream (drop (to_read s) (contents s.stream)) stream)
    (more : wants_more s ≡ true) where
  abbrev seg : TcpSegment
  seg = make_segment s payload stream

  abbrev after : TcpSender
  after = record s { stream = stream; state = state_after s payload stream }

  length-seg :
      length_in_sequence_space seg
      ≡ length payload
        + (if is_first s then 1 else 0)
        + (if takes_fin s payload stream then 1 else 0)
  unfolding make_segment length_in_sequence_space Buffer.str Buffer.of_string
  length-seg = refl

  payload_size : length payload ≡ min (to_read s) (length (contents s.stream))
  payload_size = ap length read ∙ length-take (to_read s) (contents s.stream)

  payload-seg : Buffer.str seg.payload ≡ payload
  unfolding make_segment Buffer.str Buffer.of_string
  payload-seg = refl

  room : 0 < space s
  unfolding wants_more
  room = ground (arith, more)

  to_read_small :
      (to_read s ≤ max_payload_size) × (to_read s + (if is_first s then 1 else 0) ≤ space s)
  unfolding to_read
  to_read_small = ground (arith, room, space-IsU64 s)

  takes_fin_fits :
      takes_fin s payload stream ≡ true
      → length payload + (if is_first s then 1 else 0) + 1 ≤ space s
  unfolding takes_fin
  takes_fin_fits e =
      ground
        (arith, e, payload_size, to_read_small, space-IsU64 s, v.sized, v.bounded, v.capacity_fits)

  seg_fits : length_in_sequence_space seg ≤ space s
  seg_fits = ground (arith, length-seg, takes_fin_fits, payload_size, to_read_small)

  bytes-after : length (contents s.stream) ≡ length payload + length (contents stream)
  bytes-after =
      omega
        (arith, payload_size, ap length left.buffered, length-drop (to_read s) (contents s.stream))

  not_fin : is_fin_sent s.state ≡ false
  unfolding wants_more
  not_fin = ground (arith, more)

  work_less : 0 < length_in_sequence_space seg → work after < work s
  unfolding state_after
  work_less pos = ground (arith, length-seg, bytes-after, not_fin, is_first-is_init s)

  -- The round that goes on.
  Sent-emit : 0 < length_in_sequence_space seg → Sent s seg (emit seg after)
  unfolding emit
  Sent-emit pos = record {
    stream_valid = left.valid;
    bytes =
        sym (take-append-drop (to_read s) (contents s.stream))
        ∙ ap (λ p. p ++ drop (to_read s) (contents s.stream)) (sym read ∙ sym payload-seg)
        ∙ ap (λ r. Buffer.str seg.payload ++ r) (sym left.buffered);
    small = omega (arith, ap length payload-seg, payload_size, to_read_small);
    numbered = unfold make_segment next_seqno in refl;
    advanced = refl;
    out = refl;
    recorded = refl;
    fits = seg_fits;
    nonempty = pos;
    less = work_less pos;
    running = unfold start_timer in ground (arith, pos);
    same_isn = refl;
    same_ack = refl;
    same_window = refl;
  }

  idle_first : length_in_sequence_space seg ≡ 0 → is_first s ≡ false
  idle_first z = ground (arith, length-seg)

  to_read_pos : is_first s ≡ false → 0 < to_read s
  unfolding to_read
  to_read_pos e = ground (arith, room)

  Idle-after : length_in_sequence_space seg ≡ 0 → Idle s after
  Idle-after z =
      let none_read : length payload ≡ 0 = omega (arith, length-seg) in
      let none_left : length (contents s.stream) ≡ 0 =
        omega (arith, payload_size, to_read_pos (idle_first z)) in
      record {
        stream_valid = left.valid;
        drained = empty_of_length _ none_left;
        drained_after = empty_of_length _ (omega (arith, bytes-after));
        same_next = refl;
        same_out = refl;
        same_queue = refl;
        same_timer = refl;
        same_isn = refl;
        same_ack = refl;
        same_window = refl;
      }

-- A round never throws: it sends a segment and goes on, or ends the loop.
abbrev pub Outcome : TcpSender → TcpSender × Bool → Type 0
Outcome s (s', true) = (seg : TcpSegment) × Sent s seg s'
Outcome s (s', false) = Idle s s'

pub round_ok :
    (s : TcpSender)
    → Stream.Inv s.stream
    → wants_more s ≡ true
    → (r : TcpSender × Bool) × (round s ≡ ok r) × Outcome s r
unfolding round
round_ok s v more =
    let (stream, e, l) = read_ok (to_read s) v in
    let p : List ℕ = take (to_read s) (contents s.stream) in
    elim (Bool-cases (length_in_sequence_space (make_segment s p stream) == 0)) [
      | inl z ↦ ((_, false), rw (e, z), Idle-after s p stream v refl l more ((==_iff _ _).0 z))
      | inr z ↦ ((_, true), rw (e, z), (_, Sent-emit s p stream v refl l more (ground (arith, z))))
    ]
