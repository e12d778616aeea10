-- ===== src/TcpSender/Ended.antt =====
-- The sender's calls and the end of its stream.
use cs144_sponge.Base.{
  ℕ, zero, suc, ◌≡◌, refl, ◌∙◌, Bool, true, false, List, [], ◌∷◌, arith, ok, Result, ◌>>=◌, bind_ok,
  leb, if◌then◌else◌, leb, if◌then◌else◌,
}
use cs144_sponge.BufferList
use cs144_sponge.ByteStream
use cs144_sponge.ByteStream.{ByteStream}
use cs144_sponge.WrappingIntegers.{WrappingInt32}
use cs144_sponge.TcpSegment.{TcpSegment}
use cs144_sponge.TcpSender.{
  TcpSender, round, fill_rounds, fill_window, wants_more, to_read, emit, ack_received, set_window,
  advance, retransmit_front, count_retransmission, retransmit, tick, send_empty_segment,
}

end_flag-pop_output :
    (s s' : ByteStream) (n : ℕ) → ByteStream.pop_output s n ≡ ok s' → s'.end_flag ≡ s.end_flag
unfolding ByteStream.pop_output
end_flag-pop_output s s' n e =
    let (rest, e1, e2) = bind_ok (BufferList.remove_prefix s.stream n) _ e in ground (arith, e2)

end_flag-read :
    (s : ByteStream) (n : ℕ) (p : List ℕ × ByteStream)
    → ByteStream.read s n ≡ ok p
    → p.1.end_flag ≡ s.end_flag
unfolding ByteStream.read
end_flag-read s n p e =
    let (s', e1, e2) = bind_ok (ByteStream.pop_output s (if leb s.size n then s.size else n)) _ e in
    ground (arith, e2, end_flag-pop_output s s' _ e1)

abbrev pub Same : TcpSender → TcpSender → Type 0
Same s s' = s'.stream.end_flag ≡ s.stream.end_flag

round-Same : (s : TcpSender) (r : TcpSender × Bool) → round s ≡ ok r → Same s r.0
unfolding round emit
round-Same s r e =
    let (p, e1, e2) = bind_ok (ByteStream.read s.stream (to_read s)) _ e in
    ground (arith, e2, end_flag-read s.stream (to_read s) p e1)

round_then :
    (fuel : ℕ) (s s' : TcpSender) (r : TcpSender × Bool)
    → (fill_rounds fuel r.0 ≡ ok s' → Same r.0 s')
    → elim r.1 as (λ x. Result TcpSender) [ true ↦ fill_rounds fuel r.0 | false ↦ ok r.0 ] ≡ ok s'
    → Same s r.0
    → Same s s'
round_then fuel s s' (q, true) k e h = k e ∙ h
round_then fuel s s' (q, false) k e h = ground (arith, e, h)

more_then :
    (b : Bool) (fuel : ℕ) (s s' : TcpSender)
    → ((q : TcpSender) → fill_rounds fuel q ≡ ok s' → Same q s')
    → elim b as (λ x. Result TcpSender) [
      | false ↦ ok s
      | true ↦ round s >>= λ r. elim r.1 as (λ x. Result TcpSender) [
        | true ↦ fill_rounds fuel r.0
        | false ↦ ok r.0
      ]
    ]
      ≡ ok s'
    → Same s s'
more_then false fuel s s' k e = ground (arith, e)
more_then true fuel s s' k e =
    let (r, e1, e2) =
      bind_ok (round s)
        (λ r. elim r.1 as (λ x. Result TcpSender) [ true ↦ fill_rounds fuel r.0 | false ↦ ok r.0 ])
        e in
    round_then fuel s s' r (k r.0) e2 (round-Same s r e1)

fill_rounds-Same : (fuel : ℕ) (s s' : TcpSender) → fill_rounds fuel s ≡ ok s' → Same s s'
unfolding fill_rounds
fill_rounds-Same zero s s' e = cc
fill_rounds-Same (suc fuel) s s' e =
    more_then (wants_more s) fuel s s' (λ q. fill_rounds-Same fuel q s') e

pub fill_window-Same : (s s' : TcpSender) → fill_window s ≡ ok s' → Same s s'
unfolding fill_window
fill_window-Same s s' e = fill_rounds-Same _ s s' e

pub ack_received-Same :
    (ackno : WrappingInt32) (window : ℕ) (s : TcpSender) → Same s (ack_received ackno window s)
unfolding ack_received set_window advance
ack_received-Same ackno window s = ground arith

retransmit_front-Same :
    (q : List TcpSegment) (s s' : TcpSender) → retransmit_front q s ≡ ok s' → Same s s'
unfolding retransmit_front count_retransmission
retransmit_front-Same [] s s' e = cc
retransmit_front-Same (seg ∷ q) s s' e = ground (arith, e)

pub tick-Same : (ms : ℕ) (s s' : TcpSender) → tick ms s ≡ ok s' → Same s s'
unfolding tick retransmit
tick-Same ms s s' e = ground (arith, e, retransmit_front-Same s.retransmission_queue s s')

pub send_empty_segment-Same : (s : TcpSender) → Same s (send_empty_segment s)
unfolding send_empty_segment
send_empty_segment-Same s = refl
