-- ===== src/TcpSender/Fill.antt =====
-- `fill_window`: the loop ends, and what it sends.
use cs144_sponge.Base.{
  ℕ, zero, suc, ◌+◌, ◌≤◌, ◌<◌, ◌≡◌, refl, sym, ap, subst₂, ◌∙◌, Bool, true, false, ◌⊎◌, inl, inr,
  List, [], ◌∷◌, ◌++◌, arith, is_empty, All, append_assoc, append-nil, Bool-cases, add64, sub64,
  Result, ok, IsU64, IsU16,
}
use cs144_sponge.WrappingIntegers.{unwrap, WrappingInt32}
use cs144_sponge.Buffer
use cs144_sponge.ByteStream
use cs144_sponge.ByteStream.Inv as Stream
use cs144_sponge.ByteStream.Inv.{contents}
use cs144_sponge.TcpSegment.{TcpSegment, length_in_sequence_space}
use cs144_sponge.TcpSender.{
  TcpSender, bytes_in_flight, ack_absolute, space, round, wants_more, fill_rounds, fill_window,
}
use cs144_sponge.TcpSender.Segments.{payloads, total_length, Numbered, IsSmall}
use cs144_sponge.TcpSender.Round.{Sent, Idle, Outcome, work, round_ok}

-- The calls between `s` and `s'` sent the segments `sent`, in this order.
pub record Filled (s : TcpSender) (sent : List TcpSegment) (s' : TcpSender) : Type 0 where
  pub stream_valid : Stream.Inv s'.stream
  pub next_fits : IsU64 s'.next_seqno
  pub bytes : contents s.stream ≡ payloads sent ++ contents s'.stream
  pub small : All IsSmall sent
  pub numbered : Numbered s.isn s.next_seqno sent
  pub advanced : s'.next_seqno ≡ add64 s.next_seqno (total_length sent)
  pub out : s'.segments_out ≡ s.segments_out ++ sent
  pub recorded : s'.retransmission_queue ≡ s.retransmission_queue ++ sent
  pub within : bytes_in_flight s ≤ s.window_size → bytes_in_flight s' ≤ s'.window_size
  pub spent :
      bytes_in_flight s ≤ s.window_size → bytes_in_flight s + total_length sent ≤ s.window_size
  pub nonempty : All (λ seg. 0 < length_in_sequence_space seg) sent
  pub timed :
      ((sent ≡ []) × (s'.timer ≡ s.timer)) ⊎ ((is_empty sent ≡ false) × (s'.timer.running ≡ true))
  pub same_isn : s'.isn ≡ s.isn
  pub same_ack : s'.ack ≡ s.ack
  pub same_window : s'.window_size ≡ s.window_size

-- Nothing is left that the window and the stream would let it send.
abbrev pub IsFull : TcpSender → Type 0
IsFull s = (wants_more s ≡ false) ⊎ (contents s.stream ≡ [])

pub same_ack_absolute :
    (s s' : TcpSender) → s'.ack ≡ s.ack → s'.isn ≡ s.isn → ack_absolute s' ≡ ack_absolute s
same_ack_absolute s s' e i = ap (λ a. unwrap a s'.isn 0) e ∙ ap (λ n. unwrap s.ack n 0) i

pub unwrap-IsU64 : (n isn c : ℕ) → IsU64 (unwrap n isn c)
unfolding unwrap
unwrap-IsU64 n isn c = ground arith

in_flight_grows :
    (next len u w next' w' u' : ℕ)
    → IsU64 u
    → IsU16 w
    → sub64 next u ≤ w
    → len ≤ sub64 w (sub64 next u)
    → next' ≡ add64 next len
    → w' ≡ w
    → u' ≡ u
    → (sub64 next' u' ≤ w') × (sub64 next' u' ≡ sub64 next u + len)
in_flight_grows next len u w next' w' u' hu hw h k e f g = omega arith

Filled-none : (s : TcpSender) → Stream.Inv s.stream → IsU64 s.next_seqno → Filled s [] s
Filled-none s v f = record {
  stream_valid = v;
  next_fits = f;
  bytes = refl;
  small = tt;
  numbered = tt;
  advanced = omega arith;
  out = sym (append-nil s.segments_out);
  recorded = sym (append-nil s.retransmission_queue);
  within = λ h. h;
  spent = λ h. omega (arith, h);
  nonempty = tt;
  timed = inl (refl, refl);
  same_isn = refl;
  same_ack = refl;
  same_window = refl;
}

Filled-Idle : (s s' : TcpSender) → IsU64 s.next_seqno → Idle s s' → Filled s [] s'
Filled-Idle s s' f i = record {
  stream_valid = i.stream_valid;
  next_fits = omega (arith, i.same_next);
  bytes = i.drained ∙ sym i.drained_after;
  small = tt;
  numbered = tt;
  advanced = omega (arith, i.same_next);
  out = i.same_out ∙ sym (append-nil s.segments_out);
  recorded = i.same_queue ∙ sym (append-nil s.retransmission_queue);
  within = λ h.
      unfold bytes_in_flight in
      omega (arith, same_ack_absolute s s' i.same_ack i.same_isn, i.same_next, i.same_window, h);
  spent = λ h. omega (arith, h);
  nonempty = tt;
  timed = inl (refl, i.same_timer);
  same_isn = i.same_isn;
  same_ack = i.same_ack;
  same_window = i.same_window;
}

Sent-within :
    (s s' : TcpSender) (seg : TcpSegment)
    → Sent s seg s'
    → IsU64 s.next_seqno
    → IsU16 s.window_size
    → bytes_in_flight s ≤ s.window_size
    → (bytes_in_flight s' ≤ s'.window_size)
      × (bytes_in_flight s' ≡ bytes_in_flight s + length_in_sequence_space seg)
unfolding bytes_in_flight space
Sent-within s s' seg t f w h =
    in_flight_grows s.next_seqno (length_in_sequence_space seg) (ack_absolute s) s.window_size
      s'.next_seqno s'.window_size (ack_absolute s') (unwrap-IsU64 s.ack s.isn 0) w h t.fits
      t.advanced t.same_window (same_ack_absolute s s' t.same_ack t.same_isn)

Numbered-on :
    (isn isn' : WrappingInt32) (sent : List TcpSegment) {n n' : ℕ}
    → isn' ≡ isn
    → n' ≡ n
    → Numbered isn' n' sent
    → Numbered isn n sent
Numbered-on isn isn' sent e k h = subst₂ (λ i m. Numbered i m sent) e k h

timed_on :
    (s' s'' : TcpSender) (sent : List TcpSegment)
    → s'.timer.running ≡ true
    → ((sent ≡ []) × (s''.timer ≡ s'.timer))
      ⊎ ((is_empty sent ≡ false) × (s''.timer.running ≡ true))
    → s''.timer.running ≡ true
timed_on s' s'' sent r (inl (e, t)) = ap (λ x. x.running) t ∙ r
timed_on s' s'' sent r (inr (e, t)) = t

spent_on :
    (s s' : TcpSender) (seg : TcpSegment) (total : ℕ)
    → Sent s seg s'
    → IsU64 s.next_seqno
    → IsU16 s.window_size
    → bytes_in_flight s ≤ s.window_size
    → (bytes_in_flight s' ≤ s'.window_size → bytes_in_flight s' + total ≤ s'.window_size)
    → bytes_in_flight s + (length_in_sequence_space seg + total) ≤ s.window_size
spent_on s s' seg total t nf wf h k =
    let (a, b) = Sent-within s s' seg t nf wf h in omega (arith, k a, b, t.same_window)

Filled-cons :
    (s s' s'' : TcpSender) (seg : TcpSegment) (sent : List TcpSegment)
    → IsU64 s.next_seqno
    → IsU16 s.window_size
    → Sent s seg s'
    → Filled s' sent s''
    → Filled s (seg ∷ sent) s''
Filled-cons s s' s'' seg sent nf wf t f = record {
  stream_valid = f.stream_valid;
  next_fits = f.next_fits;
  bytes =
      t.bytes
      ∙ ap (λ r. Buffer.str seg.payload ++ r) f.bytes
      ∙ sym (append_assoc (Buffer.str seg.payload) (payloads sent) (contents s''.stream));
  small = (t.small, f.small);
  numbered = (t.numbered, Numbered-on s.isn s'.isn sent t.same_isn t.advanced f.numbered);
  advanced = omega (arith, f.advanced, t.advanced);
  out = f.out ∙ ap (λ q. q ++ sent) t.out ∙ append_assoc s.segments_out (seg ∷ []) sent;
  recorded =
      f.recorded
      ∙ ap (λ q. q ++ sent) t.recorded
      ∙ append_assoc s.retransmission_queue (seg ∷ []) sent;
  within = λ h. f.within (Sent-within s s' seg t nf wf h).0;
  spent = λ h. spent_on s s' seg (total_length sent) t nf wf h f.spent;
  nonempty = (t.nonempty, f.nonempty);
  timed = inr (refl, timed_on s' s'' sent t.running f.timed);
  same_isn = f.same_isn ∙ t.same_isn;
  same_ack = f.same_ack ∙ t.same_ack;
  same_window = f.same_window ∙ t.same_window;
}

pub fill_stops : (fuel : ℕ) (s : TcpSender) → wants_more s ≡ false → fill_rounds (suc fuel) s ≡ ok s
unfolding fill_rounds
fill_stops fuel s e = ground (arith, e)

fill_last :
    (fuel : ℕ) (s : TcpSender) {s' : TcpSender}
    → wants_more s ≡ true
    → round s ≡ ok (s', false)
    → fill_rounds (suc fuel) s ≡ ok s'
unfolding fill_rounds
fill_last fuel s e r = ground (arith, e, r)

pub fill_goes_on :
    (fuel : ℕ) (s : TcpSender) {s' : TcpSender} {r' : Result TcpSender}
    → wants_more s ≡ true
    → round s ≡ ok (s', true)
    → fill_rounds fuel s' ≡ r'
    → fill_rounds (suc fuel) s ≡ r'
unfolding fill_rounds
fill_goes_on fuel s e r k = ground (arith, e, r, k)

-- What a call does: it ends by its own test, with the segments that it sent.
pub record Fills (s : TcpSender) (sent : List TcpSegment) (s' : TcpSender) : Type 0 where
  pub filled : Filled s sent s'
  pub full : IsFull s'

abbrev pub Reaches : ℕ → TcpSender → Type 0
Reaches fuel s =
    (s' : TcpSender) × (fill_rounds fuel s ≡ ok s') × (sent : List TcpSegment) × Fills s sent s'

round-Reaches :
    (fuel : ℕ) (s : TcpSender)
    → work s < suc fuel
    → IsU64 s.next_seqno
    → IsU16 s.window_size
    → wants_more s ≡ true
    → ((s' : TcpSender)
        → work s' < fuel
        → Stream.Inv s'.stream
        → IsU64 s'.next_seqno
        → IsU16 s'.window_size
        → Reaches fuel s')
    → (r : TcpSender × Bool) → round s ≡ ok r
    → Outcome s r
    → Reaches (suc fuel) s
round-Reaches fuel s lt nf wf more go_on (s', true) e (seg, t) =
    let (s'', e', sent, f) =
      go_on s' (omega (arith, t.less)) t.stream_valid (omega (arith, t.advanced))
        (omega (arith, t.same_window)) in
    (
      s'',
      fill_goes_on fuel s more e e',
      seg ∷ sent,
      record { filled = Filled-cons s s' s'' seg sent nf wf t f.filled; full = f.full },
    )
round-Reaches fuel s lt nf wf more go_on (s', false) e i = (
  s',
  fill_last fuel s more e,
  [],
  record { filled = Filled-Idle s s' nf i; full = inr i.drained_after },
)

pub fill_rounds-Reaches :
    (fuel : ℕ) (s : TcpSender)
    → work s < fuel
    → Stream.Inv s.stream
    → IsU64 s.next_seqno
    → IsU16 s.window_size
    → Reaches fuel s
fill_rounds-Reaches zero s lt v nf wf = absurd (omega arith)
fill_rounds-Reaches (suc fuel) s lt v nf wf = elim (Bool-cases (wants_more s)) [
  | inr e ↦ (s, fill_stops fuel s e, [], record { filled = Filled-none s v nf; full = inl e })
  | inl e ↦
      let (r, q, o) = round_ok s v e in
      round-Reaches fuel s lt nf wf e (fill_rounds-Reaches fuel) r q o
]

pub work_bound :
    (s : TcpSender) → Stream.Inv s.stream → work s < ByteStream.buffer_size s.stream + 4
unfolding ByteStream.buffer_size
work_bound s v = ground (arith, v.sized)

-- `fill_window` always ends, without an exception, whatever the window is.
pub fill_window-Fills :
    (s : TcpSender)
    → Stream.Inv s.stream
    → IsU64 s.next_seqno
    → IsU16 s.window_size
    → (s' : TcpSender) × (fill_window s ≡ ok s') × (sent : List TcpSegment) × Fills s sent s'
unfolding fill_window
fill_window-Fills s v nf wf = fill_rounds-Reaches _ s (work_bound s v) v nf wf
