-- ===== src/TcpSender/Safe.antt =====
-- What every call keeps, whatever the peer acknowledges: no call of a sender throws.
use cs144_sponge.Base.{
  ℕ, ◌≡◌, refl, sym, ap, subst, ◌∙◌, ◌==◌, true, false, ◌⊎◌, inl, inr, List, [], ◌∷◌, ◌++◌, arith,
  ltb, Bool-cases, is_empty, ok, IsU64, IsU16,
}
use cs144_sponge.ByteStream.Inv as Stream
use cs144_sponge.TcpSegment.{TcpSegment}
use cs144_sponge.TcpSender.{
  TcpSender, RetransmissionTimer, new, fill_window, ack_received, set_window, advance, is_ignored,
  timer_for, tick, retransmit, retransmit_front, count_retransmission, start_timer, stop_timer,
  send_empty_segment,
}
use cs144_sponge.TcpSender.Timer.{stopped, waiting}
use cs144_sponge.TcpSender.Fill.{Filled, fill_window-Fills}

-- The timer runs only if there is a segment to retransmit.
pub record Safe (s : TcpSender) : Type 0 where
  pub stream_valid : Stream.Inv s.stream
  pub next_fits : IsU64 s.next_seqno
  pub window_fits : IsU16 s.window_size
  pub timed : (s.timer.running ≡ false) ⊎ (is_empty s.retransmission_queue ≡ false)

pub new-Safe :
    (capacity retx_timeout isn : ℕ) → IsU64 capacity → Safe (new capacity retx_timeout isn)
unfolding new
new-Safe capacity retx_timeout isn h = record {
  stream_valid = Stream.new-Inv capacity h;
  next_fits = omega arith;
  window_fits = omega arith;
  timed = inl refl;
}

appended : (q sent : List TcpSegment) → is_empty q ≡ false → is_empty (q ++ sent) ≡ false
appended [] sent e = ground (arith, e)
appended (seg ∷ q) sent e = refl

pub sent_behind : (q sent : List TcpSegment) → is_empty sent ≡ false → is_empty (q ++ sent) ≡ false
sent_behind [] sent e = e
sent_behind (seg ∷ q) sent e = refl

timed_after :
    (s s' : TcpSender) (sent : List TcpSegment)
    → (s.timer.running ≡ false) ⊎ (is_empty s.retransmission_queue ≡ false)
    → ((sent ≡ []) × (s'.timer ≡ s.timer)) ⊎ ((is_empty sent ≡ false) × (s'.timer.running ≡ true))
    → (s'.timer.running ≡ false) ⊎ (is_empty (s.retransmission_queue ++ sent) ≡ false)
timed_after s s' sent (inl r) (inl (e, t)) = inl (ap (λ x. x.running) t ∙ r)
timed_after s s' sent (inr q) (inl (e, t)) = inr (appended s.retransmission_queue sent q)
timed_after s s' sent t (inr (e, r)) = inr (sent_behind s.retransmission_queue sent e)

-- `fill_window` on a window of any size, smaller than what is in flight as well.
pub fill_window-Safe :
    (s : TcpSender)
    → Safe s
    → (s' : TcpSender) × (fill_window s ≡ ok s')
      × Safe s'
      × (sent : List TcpSegment) × (s'.segments_out ≡ s.segments_out ++ sent)
fill_window-Safe s v =
    let (s', e, sent, f) = fill_window-Fills s v.stream_valid v.next_fits v.window_fits in
    let k : Filled s sent s' = f.filled in
    (
      s',
      e,
      record {
        stream_valid = k.stream_valid;
        next_fits = k.next_fits;
        window_fits = omega (arith, k.same_window, v.window_fits);
        timed = elim (timed_after s s' sent v.timed k.timed) [
          | inl r ↦ inl r
          | inr r ↦ inr (ap is_empty k.recorded ∙ r)
        ];
      },
      sent,
      k.out,
    )

timer_for-timed :
    (q : List TcpSegment) (rto : ℕ) (t : RetransmissionTimer)
    → ((timer_for q rto t).running ≡ false) ⊎ (is_empty q ≡ false)
unfolding timer_for start_timer stop_timer
timer_for-timed [] rto t = inl refl
timer_for-timed (seg ∷ q) rto t = inr refl

set_window-Safe : (w : ℕ) (s : TcpSender) → IsU16 w → Safe s → Safe (set_window w s)
unfolding set_window
set_window-Safe w s h v = record {
  stream_valid = v.stream_valid;
  next_fits = v.next_fits;
  window_fits = ground arith;
  timed = v.timed;
}

advance-Safe : (ackno : ℕ) (s : TcpSender) → Safe s → Safe (advance ackno s)
unfolding advance
advance-Safe ackno s v = record {
  stream_valid = v.stream_valid;
  next_fits = v.next_fits;
  window_fits = v.window_fits;
  timed = timer_for-timed _ _ s.timer;
}

pub ack_received-Safe :
    (ackno w : ℕ) (s : TcpSender) → IsU16 w → Safe s → Safe (ack_received ackno w s)
unfolding ack_received
ack_received-Safe ackno w s h v =
    let v' : Safe (set_window w s) = set_window-Safe w s h v in
    elim (Bool-cases (is_ignored ackno (set_window w s))) [
      | inl e ↦ rw (e, ack_received) v'
      | inr e ↦ rw (e, ack_received) (advance-Safe ackno (set_window w s) v')
    ]

-- What counting leaves as it is.
Uncounted : TcpSender → TcpSender → Type 0
Uncounted s s' =
    (s'.stream ≡ s.stream)
    × (s'.next_seqno ≡ s.next_seqno)
    × (s'.window_size ≡ s.window_size)
    × (s'.retransmission_queue ≡ s.retransmission_queue)
    × (s'.segments_out ≡ s.segments_out)

count_retransmission-Uncounted :
    (seqno : ℕ) (s : TcpSender) → Uncounted s (count_retransmission seqno s)
unfolding count_retransmission Uncounted
count_retransmission-Uncounted seqno s = elim (Bool-cases (s.window_size == 0)) [
  | inl e ↦ rw e (refl, refl, refl, refl, refl)
  | inr e ↦ rw e (refl, refl, refl, refl, refl)
]

retransmitted-Safe :
    (s s' : TcpSender)
    → is_empty s.retransmission_queue ≡ false
    → Uncounted s s'
    → Safe s
    → Safe (record s' { timer = start_timer s'.rto })
unfolding Uncounted
retransmitted-Safe s s' n (a, b, c, d, e) v = record {
  stream_valid = subst Stream.Inv (sym a) v.stream_valid;
  next_fits = omega (arith, b, v.next_fits);
  window_fits = omega (arith, c, v.window_fits);
  timed = inr (ap is_empty d ∙ n);
}

retransmit_front-Safe :
    (s : TcpSender) (q : List TcpSegment)
    → is_empty q ≡ false
    → is_empty s.retransmission_queue ≡ false
    → Safe s
    → (s' : TcpSender) × (retransmit_front q s ≡ ok s') × Safe s'
unfolding retransmit_front
retransmit_front-Safe s [] e n v = ground (arith, e)
retransmit_front-Safe s (seg ∷ q) e n v =
    let s1 : TcpSender = record s { segments_out = s.segments_out ++ (seg ∷ []) } in
    let v1 : Safe s1 = record {
      stream_valid = v.stream_valid;
      next_fits = v.next_fits;
      window_fits = v.window_fits;
      timed = v.timed;
    } in
    (_, refl, retransmitted-Safe s1 _ n (count_retransmission-Uncounted seg.header.seqno s1) v1)

tick_expired :
    (ms : ℕ) (s : TcpSender)
    → s.timer.running ≡ true
    → ltb ms s.timer.rto ≡ false
    → tick ms s ≡ retransmit_front s.retransmission_queue s
unfolding tick retransmit
tick_expired ms s r h = ground (arith, r, h)

outstanding :
    (s : TcpSender)
    → s.timer.running ≡ true
    → (s.timer.running ≡ false) ⊎ (is_empty s.retransmission_queue ≡ false)
    → is_empty s.retransmission_queue ≡ false
outstanding s r (inl n) = cc
outstanding s r (inr q) = q

pub tick-Safe : (ms : ℕ) (s : TcpSender) → Safe s → (s' : TcpSender) × (tick ms s ≡ ok s') × Safe s'
tick-Safe ms s v = elim (Bool-cases s.timer.running) [
  | inr r ↦ (s, stopped ms s r, v)
  | inl r ↦ elim (Bool-cases (ltb ms s.timer.rto)) [
    | inl lt ↦ (
      _,
      waiting ms s r lt,
      record {
        stream_valid = v.stream_valid;
        next_fits = v.next_fits;
        window_fits = v.window_fits;
        timed = v.timed;
      },
    )
    | inr ge ↦
        let n = outstanding s r v.timed in
        let (s', e, v') = retransmit_front-Safe s s.retransmission_queue n n v in
        (s', tick_expired ms s r ge ∙ e, v')
  ]
]

pub send_empty_segment-Safe : (s : TcpSender) → Safe s → Safe (send_empty_segment s)
unfolding send_empty_segment
send_empty_segment-Safe s v = record {
  stream_valid = v.stream_valid;
  next_fits = v.next_fits;
  window_fits = v.window_fits;
  timed = v.timed;
}
