-- ===== src/TcpConnection/Sound/Arrival.antt =====
-- `segment_received`, part by part.
use cs144_sponge.Base.{
  ℕ, ◌≡◌, refl, ◌∙◌, Bool, true, false, ◌⊎◌, inl, inr, List, ◌==◌, ==_iff, Bool-cases, is_empty, ok,
  IsU32, if◌then◌else◌,
}
use cs144_sponge.WrappingIntegers.{WrappingInt32}
use cs144_sponge.StreamReassembler.{HashOrder}
use cs144_sponge.TcpSegment.{TcpSegment, length_in_sequence_space}
use cs144_sponge.TcpReceiver
use cs144_sponge.TcpReceiver.Session.{segment_received-Hears}
use cs144_sponge.TcpSender as Sender
use cs144_sponge.TcpSender.{TcpSender}
use cs144_sponge.TcpSender.Safe.{Safe, fill_window-Safe, ack_received-Safe, send_empty_segment-Safe}
use cs144_sponge.TcpConnection.{
  TcpConnection, send_segment, kill, note_flags, deliver, note_ack, answer, keep_alive,
  is_keep_alive, segment_received, check_segment_in_window,
}
use cs144_sponge.TcpConnection.Sound.{
  Sound, IsGenuine, receiving, sends_empty, same-Sound, kill-Sound, send_segment-Sound,
}

or_empty-Safe :
    (q : TcpSender)
    → Safe q
    → Safe (if is_empty q.segments_out then Sender.send_empty_segment q else q)
or_empty-Safe q v = elim (Bool-cases (is_empty q.segments_out)) [
  | inl e ↦ rw e (send_empty_segment-Safe q v)
  | inr e ↦ rw e v
]

or_empty-nonempty :
    (q : TcpSender)
    → is_empty (if is_empty q.segments_out then Sender.send_empty_segment q else q).segments_out
      ≡ false
or_empty-nonempty q = elim (Bool-cases (is_empty q.segments_out)) [
  | inl e ↦ rw e (sends_empty q)
  | inr e ↦ rw e e
]

-- What is put in the sender's queue for a segment of the peer.
abbrev pub Answered : TcpSegment → TcpConnection → TcpConnection → Type 0
Answered seg c c' =
    (c'.segments_out ≡ c.segments_out)
    × ((length_in_sequence_space seg ≡ 0) ⊎ (is_empty c'.sender.segments_out ≡ false))

module _ (s : ℕ → ℕ) (isn : WrappingInt32) (capacity : ℕ) (small : IsU32 isn) (g : List ℕ)
    (b : Bool) where
  abbrev Is : TcpConnection → Type 0
  Is c = Sound s isn capacity g b c

  killed_or : (c : TcpConnection) (b : Bool) → Is c → Is (if b then kill c else c)
  killed_or c true v = kill-Sound s isn capacity small g b b c v
  killed_or c false v = v

  pub note_flags-Sound : (seg : TcpSegment) (c : TcpConnection) → Is c → Is (note_flags seg c)
  unfolding note_flags
  note_flags-Sound seg c v =
      let c1 : TcpConnection = record c { rece_tick = c.tick } in
      let v1 : Is c1 = same-Sound s isn capacity small g b c c1 refl refl (λ h. h) v in
      same-Sound s isn capacity small g b (if seg.header.rst then kill c1 else c1) _ refl refl
        (λ h. h) (killed_or c1 seg.header.rst v1)

  pub deliver-Sound :
      (h : HashOrder) (seg : TcpSegment) (c : TcpConnection)
      → IsGenuine s isn seg
      → Is c
      → (c' : TcpConnection) × (deliver h seg c ≡ ok c')
        × Is c'
        × (c'.segments_out ≡ c.segments_out)
  unfolding deliver
  deliver-Sound h seg c p v = elim (Bool-cases (check_segment_in_window seg c)) [
    | inl e ↦
        let (r, q, w) =
          segment_received-Hears s isn capacity small h seg v.seen (receiving g c) p.0 v.hears in
        (
          record c { receiver = r },
          rw (e, q),
          record { seen = _; hears = w; shut = v.shut; safe = v.safe },
          refl,
        )
    | inr e ↦ (c, rw e, v, refl)
  ]

  pub note_ack-Sound :
      (seg : TcpSegment) (c : TcpConnection) → IsGenuine s isn seg → Is c → Is (note_ack seg c)
  unfolding note_ack
  note_ack-Sound seg c p v = elim (Bool-cases seg.header.ack) [
    | inl e ↦
        rw (e, note_ack)
          (record {
            seen = v.seen;
            hears = v.hears;
            shut = v.shut;
            safe = ack_received-Safe seg.header.ackno seg.header.win c.sender p.1 v.safe;
          })
    | inr e ↦ rw (e, note_ack) v
  ]

  pub answer-Sound :
      (seg : TcpSegment) (c : TcpConnection)
      → Is c
      → (c' : TcpConnection) × (answer seg c ≡ ok c') × Is c' × Answered seg c c'
  unfolding answer
  answer-Sound seg c v = elim (Bool-cases (length_in_sequence_space seg == 0)) [
    | inl e ↦ (c, rw e, v, (refl, inl ((==_iff _ _).0 e)))
    | inr e ↦
        let (q, p, w, _, _) = fill_window-Safe c.sender v.safe in
        let q' : TcpSender = if is_empty q.segments_out then Sender.send_empty_segment q else q in
        (
          record c { sender = q' },
          rw (e, p),
          record { seen = v.seen; hears = v.hears; shut = v.shut; safe = or_empty-Safe q w },
          (refl, inr (or_empty-nonempty q)),
        )
  ]

  pub keep_alive-Sound : (seg : TcpSegment) (c : TcpConnection) → Is c → Is (keep_alive seg c)
  unfolding keep_alive
  keep_alive-Sound seg c v = elim (Bool-cases (is_keep_alive seg (TcpReceiver.ackno c.receiver))) [
    | inl e ↦
        rw (e, keep_alive)
          (record {
            seen = v.seen;
            hears = v.hears;
            shut = v.shut;
            safe = send_empty_segment-Safe c.sender v.safe;
          })
    | inr e ↦ rw (e, keep_alive) v
  ]

  pub handled-Sound :
      (h : HashOrder) (seg : TcpSegment) (c : TcpConnection)
      → IsGenuine s isn seg
      → Is (note_flags seg c)
      → (c' : TcpConnection) × (segment_received h seg c ≡ ok c') × Is c'
  unfolding segment_received
  handled-Sound h seg c p v =
      let (c1, e1, v1, _) = deliver-Sound h seg (note_flags seg c) p v in
      let (c2, e2, v2, _) = answer-Sound seg (note_ack seg c1) (note_ack-Sound seg c1 p v1) in
      (
        send_segment (keep_alive seg c2),
        rw (e1, e2),
        send_segment-Sound s isn capacity small g b _ (keep_alive-Sound seg c2 v2),
      )

  -- A segment of the peer is handled without an exception.
  pub segment_received-Sound :
      (h : HashOrder) (seg : TcpSegment) (c : TcpConnection)
      → IsGenuine s isn seg
      → Is c
      → (c' : TcpConnection) × (segment_received h seg c ≡ ok c') × Is c'
  segment_received-Sound h seg c p v = handled-Sound h seg c p (note_flags-Sound seg c v)

note_flags-kill :
    (seg : TcpSegment) (c : TcpConnection)
    → seg.header.rst ≡ true
    → ((note_flags seg c).receiver ≡ (kill (record c { rece_tick = c.tick })).receiver)
      × ((note_flags seg c).sender ≡ (kill (record c { rece_tick = c.tick })).sender)
      × ((note_flags seg c).close ≡ (kill (record c { rece_tick = c.tick })).close)
unfolding note_flags
note_flags-kill seg c e = rw e (refl, refl, refl)

-- A segment with the RST flag leaves the connection closed.
pub segment_received-rst :
    (s : ℕ → ℕ) (isn : WrappingInt32) (capacity : ℕ) (small : IsU32 isn) (g : List ℕ) (b : Bool)
    (h : HashOrder) (seg : TcpSegment) (c : TcpConnection)
    → IsGenuine s isn seg
    → seg.header.rst ≡ true
    → Sound s isn capacity g b c
    → (c' : TcpConnection) × (segment_received h seg c ≡ ok c') × Sound s isn capacity g true c'
segment_received-rst s isn capacity small g b h seg c p e v =
    let c1 : TcpConnection = record c { rece_tick = c.tick } in
    let v1 : Sound s isn capacity g b c1 =
      same-Sound s isn capacity small g b c c1 refl refl (λ k. k) v in
    let v2 : Sound s isn capacity g true (kill c1) =
      kill-Sound s isn capacity small g b true c1 v1 in
    let (x, y, z) = note_flags-kill seg c e in
    handled-Sound s isn capacity small g true h seg c p
      (same-Sound s isn capacity small g true (kill c1) (note_flags seg c) x y (λ k. z ∙ k) v2)
