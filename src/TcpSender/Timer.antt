-- ===== src/TcpSender/Timer.antt =====
-- The retransmission timer.
use cs144_sponge.Base.{
  ℕ, ◌+◌, ◌*◌, ◌≤◌, ◌<◌, ◌≡◌, refl, sym, ap, ◌∙◌, true, false, not, inl, inr, List, [], ◌∷◌, ◌++◌,
  arith, ltb, Bool-cases, is_empty, ok, some, if◌then◌else◌, sub64, u32, IsU64, ltb→ge, ◌-◌,
}
use cs144_sponge.TcpSegment.{TcpSegment}
use cs144_sponge.TcpSender.{
  TcpSender, start_timer, count_retransmission, retransmit_front, retransmit, tick, is_last,
}
use cs144_sponge.TcpSender.Outstanding.{Inv}

-- What an expiry does to the sender whose oldest outstanding segment is `seg`.
abbrev pub Expired : TcpSender → TcpSegment → TcpSender → Type 0
Expired s seg s' =
    (s'.segments_out ≡ s.segments_out ++ (seg ∷ []))
    × (s'.retransmission_queue ≡ s.retransmission_queue)
    × (s'.rto ≡ (if s.window_probe then s.rto else u32 (s.rto * 2)))
    × (s'.timer ≡ record { rto = s'.rto; running = true })
    × (s'.consecutive_retran ≡ (
        if is_last s.last_retrans_seqno seg.header.seqno
        then u32 (s.consecutive_retran + 1)
        else 1))
    × (s'.last_retrans_seqno ≡ some seg.header.seqno)

pub retransmit_front-Expired :
    (s : TcpSender) (seg : TcpSegment) (q : List TcpSegment)
    → s.retransmission_queue ≡ seg ∷ q
    → 0 < s.window_size
    → (s' : TcpSender) × (retransmit_front s.retransmission_queue s ≡ ok s')
      × Expired s seg s'
      × (Inv s → Inv s')
unfolding retransmit_front count_retransmission start_timer
retransmit_front-Expired s seg q e w = (
  record s {
    segments_out = s.segments_out ++ (seg ∷ []);
    consecutive_retran =
        if is_last s.last_retrans_seqno seg.header.seqno then u32 (s.consecutive_retran + 1) else 1;
    last_retrans_seqno = some seg.header.seqno;
    rto = if s.window_probe then s.rto else u32 (s.rto * 2);
    timer = record { rto = if s.window_probe then s.rto else u32 (s.rto * 2); running = true };
  },
  ap (λ l. retransmit_front l s) e ∙ ground (arith, w),
  (refl, refl, refl, refl, refl, refl),
  λ v. record {
    stream_valid = v.stream_valid;
    isn_fits = v.isn_fits;
    window_fits = v.window_fits;
    window_open = v.window_open;
    young = v.young;
    first = v.first;
    covers = v.covers;
    points = v.points;
    timed = sym (ap (λ l. not (is_empty l)) e);
  },
)

front_of :
    (q : List TcpSegment)
    → not (is_empty q) ≡ true
    → (seg : TcpSegment) × (r : List TcpSegment) × (q ≡ seg ∷ r)
front_of [] e = cc
front_of (seg ∷ r) e = (seg, r, refl)

pub tick-retransmit :
    (ms : ℕ) (s : TcpSender) → s.timer.running ≡ true → s.timer.rto ≤ ms → tick ms s ≡ retransmit s
unfolding tick
tick-retransmit ms s r h = ground (arith, r)

-- When the timer runs out, the oldest outstanding segment is sent once more, as it was, and stays
-- recorded; the timeout doubles unless a zero window is being probed; the timer starts afresh with it;
-- and the retransmission is counted, from 1 if the segment is another than the last one.
pub tick_expires :
    (ms : ℕ) (s : TcpSender)
    → Inv s
    → s.timer.running ≡ true
    → s.timer.rto ≤ ms
    → (seg : TcpSegment) × (q : List TcpSegment) × (s' : TcpSender) × (s.retransmission_queue
        ≡ seg ∷ q)
      × (tick ms s ≡ ok s')
      × Expired s seg s'
tick_expires ms s v r h =
    let (seg, q, e) = front_of s.retransmission_queue (sym v.timed ∙ r) in
    let (s', p, x, k) = retransmit_front-Expired s seg q e v.window_open in
    (seg, q, s', e, tick-retransmit ms s r h ∙ unfold retransmit in p, x)

pub stopped : (ms : ℕ) (s : TcpSender) → s.timer.running ≡ false → tick ms s ≡ ok s
unfolding tick
stopped ms s r = ground (arith, r)

pub waiting :
    (ms : ℕ) (s : TcpSender)
    → s.timer.running ≡ true
    → ltb ms s.timer.rto ≡ true
    → tick ms s ≡ ok (record s { timer = record (s.timer) { rto = sub64 s.timer.rto ms } })
unfolding tick
waiting ms s r lt = ground (arith, r, lt)

-- Before the timer runs out a tick only takes the time off it; while it is stopped, it does nothing.
pub tick_waits :
    (ms : ℕ) (s : TcpSender)
    → IsU64 s.timer.rto
    → (s.timer.running ≡ false → tick ms s ≡ ok s)
      × (s.timer.running ≡ true
          → ms < s.timer.rto
          → tick ms s ≡ ok (record s { timer = record (s.timer) { rto = s.timer.rto - ms } }))
unfolding tick
tick_waits ms s h = (λ r. ground (arith, r), λ r lt. ground (arith, r, lt))

-- A tick of any length keeps the invariant, and never looks for a segment in an empty queue.
pub tick-Inv : (ms : ℕ) (s : TcpSender) → Inv s → (s' : TcpSender) × (tick ms s ≡ ok s') × Inv s'
tick-Inv ms s v = elim (Bool-cases s.timer.running) [
  | inr r ↦ (s, stopped ms s r, v)
  | inl r ↦ elim (Bool-cases (ltb ms s.timer.rto)) [
    | inl lt ↦ (
      _,
      waiting ms s r lt,
      record {
        stream_valid = v.stream_valid;
        isn_fits = v.isn_fits;
        window_fits = v.window_fits;
        window_open = v.window_open;
        young = v.young;
        first = v.first;
        covers = v.covers;
        points = v.points;
        timed = v.timed;
      },
    )
    | inr ge ↦
        let (seg, q, e) = front_of s.retransmission_queue (sym v.timed ∙ r) in
        let (s', p, x, k) = retransmit_front-Expired s seg q e v.window_open in
        (s', tick-retransmit ms s r (ltb→ge _ _ ge) ∙ unfold retransmit in p, k v)
  ]
]
