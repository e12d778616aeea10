-- ===== src/TcpSender/Shrunk.antt =====
-- A window that has become smaller than what is in flight, and a new sender.
use cs144_sponge.Base.{
  ℕ, suc, ◌+◌, ◌<◌, ◌≡◌, ◌≢◌, refl, ap, ◌∙◌, true, false, List, [], ◌∷◌, ◌++◌, arith, append_assoc,
  ok, IsU16, IsU32, IsU64, ◌^◌, Bool,
}
use cs144_sponge.WrappingIntegers.{unwrap}
use cs144_sponge.ByteStream
use cs144_sponge.ByteStream.Inv as Stream
use cs144_sponge.ByteStream.Inv.{contents}
use cs144_sponge.TcpSegment.{TcpSegment, length_in_sequence_space}
use cs144_sponge.TcpSender.{
  TcpSender, new, is_fin_sent, bytes_in_flight, space, wants_more, round, fill_window,
}
use cs144_sponge.TcpSender.Round.{Outcome, Sent, round_ok}
use cs144_sponge.TcpSender.Fill.{fill_goes_on, fill_rounds-Reaches, work_bound}
use cs144_sponge.TcpSender.Outstanding.{Inv}

-- A new sender has an empty queue and a timer that is stopped.
pub new-Inv :
    (capacity retx_timeout isn : ℕ)
    → IsU64 capacity
    → IsU32 isn
    → Inv (new capacity retx_timeout isn)
unfolding new unwrap
new-Inv capacity retx_timeout isn hc hi = record {
  stream_valid = Stream.new-Inv capacity hc;
  isn_fits = hi;
  window_fits = omega arith;
  window_open = omega arith;
  young = omega arith;
  first = 0;
  covers = refl;
  points = ground arith;
  timed = refl;
}

in_flight_bound : (s : TcpSender) → bytes_in_flight s < 2 ^ 64
unfolding bytes_in_flight
in_flight_bound s = omega arith

shrunk_wants_more :
    (s : TcpSender)
    → IsU16 s.window_size
    → s.window_size < bytes_in_flight s
    → is_fin_sent s.state ≡ false
    → wants_more s ≡ true
unfolding wants_more space
shrunk_wants_more s w h e = ground (arith, e, in_flight_bound s)

first_sends :
    (s : TcpSender) (r : TcpSender × Bool)
    → contents s.stream ≢ []
    → round s ≡ ok r
    → Outcome s r
    → (s' : TcpSender) × (seg : TcpSegment) × (round s ≡ ok (s', true)) × Sent s seg s'
first_sends s (s', true) ne e (seg, t) = (s', seg, e, t)
first_sends s (s', false) ne e i = absurd (ne i.drained)

-- If more is in flight than the window allows, and the stream has bytes to send and no FIN was sent,
-- `fill_window` nevertheless sends a segment: the difference of window and bytes in flight wraps round.
pub fill_window_overruns :
    (s : TcpSender)
    → Inv s
    → s.window_size < bytes_in_flight s
    → is_fin_sent s.state ≡ false
    → contents s.stream ≢ []
    → (s' : TcpSender) × (seg : TcpSegment) × (sent : List TcpSegment) × (fill_window s ≡ ok s')
      × (s'.segments_out ≡ s.segments_out ++ (seg ∷ sent))
      × (0 < length_in_sequence_space seg)
unfolding fill_window
fill_window_overruns s v h e ne =
    let more : wants_more s ≡ true = shrunk_wants_more s v.window_fits h e in
    let (r, p, o) = round_ok s v.stream_valid more in
    let (s1, seg, q, t) = first_sends s r ne p o in
    let fuel : ℕ = ByteStream.buffer_size s.stream + 3 in
    let (s', k, sent, f) =
      fill_rounds-Reaches fuel s1 (omega (arith, t.less, work_bound s v.stream_valid))
        t.stream_valid (omega (arith, t.advanced)) (omega (arith, t.same_window, v.window_fits)) in
    let n : ByteStream.buffer_size s.stream + 4 ≡ suc fuel = omega arith in
    (
      s',
      seg,
      sent,
      rw n (fill_goes_on fuel s more q k),
      f.filled.out ∙ ap (λ l. l ++ sent) t.out ∙ append_assoc s.segments_out (seg ∷ []) sent,
      t.nonempty,
    )
