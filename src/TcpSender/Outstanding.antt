-- ===== src/TcpSender/Outstanding.antt =====
-- The retransmission queue covers what is sent and not acknowledged, and the timer runs for it.
use cs144_sponge.Base.{
  ℕ, ◌+◌, ◌≤◌, ◌<◌, ◌≡◌, refl, sym, ap, subst, subst₂, ◌∙◌, true, false, ◌⊎◌, inl, inr, List, [],
  ◌∷◌, ◌++◌, arith, All, append-nil, Bool-cases, add64, sub64, ok, IsU32, IsU16, ◌^◌, not, ltb,
  is_empty, ltb→lt, ltb→ge, ◌==◌,
}
use cs144_sponge.WrappingIntegers.Absolute.{unwrap-wrap_young}
use cs144_sponge.WrappingIntegers.{wrap, unwrap, WrappingInt32}
use cs144_sponge.TcpSegment.{TcpSegment, length_in_sequence_space}
use cs144_sponge.ByteStream.Inv as Stream
use cs144_sponge.TcpSender.{
  TcpSender, RetransmissionTimer, drop_acked, timer_for, start_timer, stop_timer, set_window,
  ack_received, is_ignored, advance, ack_absolute, bytes_in_flight, fill_window,
}
use cs144_sponge.TcpSender.Segments.{Numbered, total_length}
use cs144_sponge.TcpSender.Fill.{Filled, fill_window-Fills, same_ack_absolute}

-- `q` covers the absolute numbers from `a` to `n`.
abbrev pub Covers : WrappingInt32 → ℕ → ℕ → List TcpSegment → Type 0
Covers isn a n [] = a ≡ n
Covers isn a n (seg ∷ q) =
    (seg.header.seqno ≡ wrap a isn)
    × (0 < length_in_sequence_space seg)
    × Covers isn (a + length_in_sequence_space seg) n q

-- The acknowledged number `u` lies in the first outstanding segment, or at the end.
abbrev pub Points : ℕ → ℕ → List TcpSegment → Type 0
Points u a [] = u ≡ a
Points u a (seg ∷ q) = (a ≤ u) × (u < a + length_in_sequence_space seg)

-- `first` is the absolute number of the first outstanding segment.
pub record Inv (s : TcpSender) : Type 0 where
  pub stream_valid : Stream.Inv s.stream
  pub isn_fits : IsU32 s.isn
  pub window_fits : IsU16 s.window_size
  pub window_open : 0 < s.window_size
  pub young : s.next_seqno < 2 ^ 32
  pub first : ℕ
  pub covers : Covers s.isn first s.next_seqno s.retransmission_queue
  pub points : Points (ack_absolute s) first s.retransmission_queue
  pub timed : s.timer.running ≡ not (is_empty s.retransmission_queue)

Covers-le : (isn : WrappingInt32) (a n : ℕ) (q : List TcpSegment) → Covers isn a n q → a ≤ n
Covers-le isn a n [] c = omega arith
Covers-le isn a n (seg ∷ q) c =
    omega (arith, Covers-le isn (a + length_in_sequence_space seg) n q c.2)

-- What is left after an acknowledgement of `u`.
drop_acked-Covers :
    (isn : WrappingInt32) (a n u : ℕ) (q : List TcpSegment)
    → IsU32 isn
    → n < 2 ^ 32
    → a ≤ u
    → u ≤ n
    → Covers isn a n q
    → (b : ℕ) × Covers isn b n (drop_acked isn u q) × Points u b (drop_acked isn u q)
unfolding drop_acked
drop_acked-Covers isn a n u [] hi hn lo hu c = (a, c, omega arith)
drop_acked-Covers isn a n u (seg ∷ q) hi hn lo hu c =
    let len : ℕ = length_in_sequence_space seg in
    let fits : a + len ≤ n = Covers-le isn (a + len) n q c.2 in
    let at : unwrap seg.header.seqno isn 0 ≡ a =
      ap (λ x. unwrap x isn 0) c.0 ∙ unwrap-wrap_young a isn hi (omega arith) in
    elim (Bool-cases (ltb u (add64 (unwrap seg.header.seqno isn 0) len))) [
      | inl e ↦ (a, rw e c, rw e (lo, omega (arith, at, ltb→lt _ _ e, fits)))
      | inr e ↦
          rw (e, drop_acked)
            (drop_acked-Covers isn (a + len) n u q hi hn (omega (arith, at, ltb→ge _ _ e, fits)) hu
              c.2)
    ]

Points-le : (u a : ℕ) (q : List TcpSegment) → Points u a q → a ≤ u
Points-le u a [] p = omega (arith, p)
Points-le u a (seg ∷ q) p = p.0

timer_for-running :
    (q : List TcpSegment) (rto : ℕ) (t : RetransmissionTimer)
    → (timer_for q rto t).running ≡ not (is_empty q)
unfolding timer_for start_timer stop_timer
timer_for-running [] rto t = refl
timer_for-running (seg ∷ q) rto t = refl

pub set_window-Inv :
    (window_size : ℕ) (s : TcpSender) → IsU16 window_size → Inv s → Inv (set_window window_size s)
unfolding set_window
set_window-Inv window_size s h v = record {
  stream_valid = v.stream_valid;
  isn_fits = v.isn_fits;
  window_fits = ground arith;
  window_open = ground arith;
  young = v.young;
  first = v.first;
  covers = v.covers;
  points = v.points;
  timed = v.timed;
}

pub accepted_range :
    (ackno : WrappingInt32) (s : TcpSender)
    → is_ignored ackno s ≡ false
    → (ack_absolute s < unwrap ackno s.isn 0) × (unwrap ackno s.isn 0 ≤ s.next_seqno)
unfolding is_ignored
accepted_range ackno s e = ground (arith, e)

advance-Inv :
    (ackno : WrappingInt32) (s : TcpSender)
    → is_ignored ackno s ≡ false
    → Inv s
    → Inv (advance ackno s)
unfolding advance
advance-Inv ackno s e v =
    let (lo, hi) = accepted_range ackno s e in
    let (b, c, p) =
      drop_acked-Covers s.isn v.first s.next_seqno (unwrap ackno s.isn 0) s.retransmission_queue
        v.isn_fits v.young (omega (arith, Points-le _ _ _ v.points)) hi v.covers in
    record {
      stream_valid = v.stream_valid;
      isn_fits = v.isn_fits;
      window_fits = v.window_fits;
      window_open = v.window_open;
      young = v.young;
      first = b;
      covers = c;
      points = p;
      timed = timer_for-running _ _ s.timer;
    }

-- An acknowledgement, whatever number and window it carries, keeps the invariant: in particular the
-- timer runs exactly if a segment is outstanding.
pub ack_received-Inv :
    (ackno : WrappingInt32) (window_size : ℕ) (s : TcpSender)
    → IsU16 window_size
    → Inv s
    → Inv (ack_received ackno window_size s)
unfolding ack_received
ack_received-Inv ackno window_size s h v =
    let v' : Inv (set_window window_size s) = set_window-Inv window_size s h v in
    elim (Bool-cases (is_ignored ackno (set_window window_size s))) [
      | inl e ↦ rw (e, ack_received) v'
      | inr e ↦ rw (e, ack_received) (advance-Inv ackno (set_window window_size s) e v')
    ]

in_flight_sum : (n u : ℕ) → n < 2 ^ 32 → u ≤ n → u + sub64 n u ≡ n
in_flight_sum n u h le = omega arith

in_flight_cases :
    (isn : WrappingInt32) (a n u : ℕ) (q : List TcpSegment)
    → n < 2 ^ 32
    → Covers isn a n q
    → Points u a q
    → (u ≤ n) × ((sub64 n u == 0) ≡ is_empty q)
in_flight_cases isn a n u [] h c p = ground (arith, c, p)
in_flight_cases isn a n u (seg ∷ q) h c p =
    ground (arith, c, p, Covers-le isn (a + length_in_sequence_space seg) n q c.2)

-- Between two calls the acknowledged number and what is in flight add up to the next number, and
-- nothing is in flight exactly if nothing is recorded for retransmission.
pub bytes_in_flight_lem :
    (s : TcpSender)
    → Inv s
    → (ack_absolute s + bytes_in_flight s ≡ s.next_seqno)
      × ((bytes_in_flight s == 0) ≡ is_empty s.retransmission_queue)
unfolding bytes_in_flight
bytes_in_flight_lem s v =
    let (le, e) =
      in_flight_cases s.isn v.first s.next_seqno (ack_absolute s) s.retransmission_queue v.young
        v.covers v.points in
    (in_flight_sum s.next_seqno (ack_absolute s) v.young le, e)

Covers-Numbered :
    (isn : WrappingInt32) (n : ℕ) (sent : List TcpSegment)
    → Numbered isn n sent
    → All (λ seg. 0 < length_in_sequence_space seg) sent
    → n + total_length sent < 2 ^ 64
    → Covers isn n (n + total_length sent) sent
Covers-Numbered isn n [] d p h = omega arith
Covers-Numbered isn n (seg ∷ sent) d p h =
    let len : ℕ = length_in_sequence_space seg in
    let e : add64 n len ≡ n + len = omega arith in
    let end : n + len + total_length sent ≡ n + (len + total_length sent) = omega arith in
    (
      d.0,
      p.0,
      subst (λ k. Covers isn (n + len) k sent) end
          (Covers-Numbered isn (n + len) sent (subst (λ k. Numbered isn k sent) e d.1) p.1
            (omega arith)),
    )

Covers-append :
    (isn : WrappingInt32) (a n : ℕ) (q sent : List TcpSegment)
    → Covers isn a n q
    → Numbered isn n sent
    → All (λ seg. 0 < length_in_sequence_space seg) sent
    → n + total_length sent < 2 ^ 64
    → Covers isn a (n + total_length sent) (q ++ sent)
Covers-append isn a n [] [] c d p h = omega (arith, c)
Covers-append isn a n [] (seg ∷ sent) c d p h =
    subst (λ k. Covers isn k (n + total_length (seg ∷ sent)) (seg ∷ sent)) (sym c)
      (Covers-Numbered isn n (seg ∷ sent) d p h)
Covers-append isn a n (seg ∷ q) sent c d p h =
    (c.0, c.1, Covers-append isn (a + length_in_sequence_space seg) n q sent c.2 d p h)

Points-append :
    (isn : WrappingInt32) (u a n : ℕ) (q sent : List TcpSegment)
    → Covers isn a n q
    → All (λ seg. 0 < length_in_sequence_space seg) sent
    → Points u a q
    → Points u a (q ++ sent)
Points-append isn u a n [] [] c pos p = p
Points-append isn u a n [] (seg ∷ sent) c pos p = omega (arith, p, pos.0)
Points-append isn u a n (seg ∷ q) sent c pos p = p

is_empty-append :
    (q sent : List TcpSegment) → is_empty sent ≡ false → not (is_empty (q ++ sent)) ≡ true
is_empty-append [] sent e = ap not e
is_empty-append (seg ∷ q) sent e = refl

timed_after :
    (s s' : TcpSender) (q sent : List TcpSegment)
    → s.timer.running ≡ not (is_empty q)
    → ((sent ≡ []) × (s'.timer ≡ s.timer)) ⊎ ((is_empty sent ≡ false) × (s'.timer.running ≡ true))
    → s'.timer.running ≡ not (is_empty (q ++ sent))
timed_after s s' q sent r (inl (e, t)) =
    ap (λ x. x.running) t
    ∙ r
    ∙ ap (λ l. not (is_empty l)) (sym (append-nil q))
    ∙ ap (λ l. not (is_empty (q ++ l))) (sym e)
timed_after s s' q sent r (inr (e, t)) = t ∙ sym (is_empty-append q sent e)

module _ (s s' : TcpSender) (sent : List TcpSegment) (v : Inv s) (f : Filled s sent s')
    (within : bytes_in_flight s ≤ s.window_size) (far : s.next_seqno + 2 ^ 16 < 2 ^ 32) where
  next_sum : (s'.next_seqno ≡ s.next_seqno + total_length sent) × (total_length sent < 2 ^ 16)
  next_sum = omega (arith, f.advanced, f.spent within, v.window_fits)

  Filled-Inv : Inv s'
  Filled-Inv = record {
    stream_valid = f.stream_valid;
    isn_fits = omega (arith, f.same_isn, v.isn_fits);
    window_fits = omega (arith, f.same_window, v.window_fits);
    window_open = omega (arith, f.same_window, v.window_open);
    young = omega (arith, next_sum);
    first = v.first;
    covers =
        subst (λ q. Covers s'.isn v.first s'.next_seqno q) (sym f.recorded)
          (subst₂ (λ i n. Covers i v.first n (s.retransmission_queue ++ sent)) (sym f.same_isn)
            (sym next_sum.0)
            (Covers-append s.isn v.first s.next_seqno s.retransmission_queue sent v.covers
              f.numbered f.nonempty (omega (arith, next_sum))));
    points =
        subst₂ (λ u q. Points u v.first q) (sym (same_ack_absolute s s' f.same_ack f.same_isn))
          (sym f.recorded)
          (Points-append s.isn (ack_absolute s) v.first s.next_seqno s.retransmission_queue sent
            v.covers f.nonempty v.points);
    timed =
        timed_after s s' s.retransmission_queue sent v.timed f.timed
        ∙ ap (λ q. not (is_empty q)) (sym f.recorded);
  }

-- `fill_window` keeps the invariant while the numbers stay below 2^32, if no more than the window is
-- in flight; and it keeps to that.
pub fill_window-Inv :
    (s : TcpSender)
    → Inv s
    → bytes_in_flight s ≤ s.window_size
    → s.next_seqno + 2 ^ 16 < 2 ^ 32
    → (s' : TcpSender) × (fill_window s ≡ ok s') × Inv s' × (bytes_in_flight s' ≤ s'.window_size)
fill_window-Inv s v within far =
    let (s', e, sent, f) =
      fill_window-Fills s v.stream_valid (omega (arith, v.young)) v.window_fits in
    (s', e, Filled-Inv s s' sent v f.filled within far, f.filled.within within)
