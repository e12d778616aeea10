-- ===== src/TcpConnection/Reset.antt =====
-- How a connection gives up: `send_rst`, and the retransmissions that lead to it.
use cs144_sponge.Base.{
  ℕ, ◌<◌, ◌≤◌, ◌≡◌, refl, sym, ap, ◌∙◌, Bool, true, false, not, some, List, [], ◌∷◌, ◌++◌, arith,
  ok, Bool-cases, inl, inr, ◌⊎◌, ltb→ge, IsU32, is_empty, if◌then◌else◌, ltb, add64,
}
use cs144_sponge.ByteStream
use cs144_sponge.TcpSegment.{TcpSegment}
use cs144_sponge.TcpSender as Sender
use cs144_sponge.TcpSender.{TcpSender}
use cs144_sponge.TcpSender.Timer.{retransmit_front-Expired, tick-retransmit}
use cs144_sponge.WrappingIntegers.{WrappingInt32}
use cs144_sponge.TcpConnection.Sound.{Sound}
use cs144_sponge.TcpConnection.Sound.Calls.{stays_closed, advance_time-Sound, tick_sender-Sound}
use cs144_sponge.TcpConnection.{
  TcpConnection, active, kill, reset_with, send_rst, give_up, tick, advance_time, tick_sender,
  close_if_done, send_segment, max_retx_attempts, is_done,
}

-- The connection is dead: one segment is left to send, an RST, and both streams have failed.
pub record IsReset (c : TcpConnection) : Type 0 where
  pub last : TcpSegment
  pub only : c.segments_out ≡ last ∷ []
  pub flagged : last.header.rst ≡ true
  pub inactive : active c ≡ false
  pub inbound : ByteStream.error c.receiver.reassembler.output ≡ true
  pub outbound : ByteStream.error c.sender.stream ≡ true

reset_with-IsReset :
    (q : List TcpSegment) (c : TcpConnection)
    → is_empty q ≡ false
    → (c' : TcpConnection) × (reset_with q c ≡ ok c') × IsReset c'
unfolding reset_with kill active ByteStream.error ByteStream.set_error
reset_with-IsReset [] c n = ground (arith, n)
reset_with-IsReset (seg ∷ q) c n = (
  _,
  refl,
  record {
    last = record seg { header = record (seg.header) { rst = true } };
    only = refl;
    flagged = refl;
    inactive = refl;
    inbound = refl;
    outbound = refl;
  },
)

not_empty : (q : List TcpSegment) (seg : TcpSegment) → is_empty (q ++ (seg ∷ [])) ≡ false
not_empty [] seg = refl
not_empty (x ∷ q) seg = refl

-- `send_rst` never finds the sender's queue empty; whatever waited to be sent gives way to the RST.
pub send_rst-IsReset :
    (c : TcpConnection) → (c' : TcpConnection) × (send_rst c ≡ ok c') × IsReset c'
unfolding send_rst Sender.send_empty_segment
send_rst-IsReset c = reset_with-IsReset _ _ (not_empty c.sender.segments_out _)

closed_of : (b : Bool) → not b ≡ false → b ≡ true
closed_of true e = refl
closed_of false e = sym e

close_if_done-IsReset : (c : TcpConnection) → IsReset c → IsReset (close_if_done c)
unfolding close_if_done active
close_if_done-IsReset c r = elim (Bool-cases (is_done c)) [
  | inr e ↦ rw (e, close_if_done) r
  | inl e ↦
      rw (e, close_if_done)
        (record {
          last = r.last;
          only = r.only;
          flagged = r.flagged;
          inactive = ap not (stays_closed _ (closed_of c.close r.inactive));
          inbound = r.inbound;
          outbound = r.outbound;
        })
]

close_if_done-sender : (c : TcpConnection) → (close_if_done c).sender ≡ c.sender
unfolding close_if_done
close_if_done-sender c = elim (Bool-cases (is_done c)) [ inl e ↦ rw e refl | inr e ↦ rw e refl ]

give_up_limits :
    (c : TcpConnection)
    → (c' : TcpConnection) × (give_up c ≡ ok c')
      × ((c'.sender.consecutive_retran ≤ max_retx_attempts) ⊎ IsReset c')
unfolding give_up Sender.consecutive_retransmissions
give_up_limits c = elim (Bool-cases (ltb max_retx_attempts c.sender.consecutive_retran)) [
  | inl e ↦ let (c', p, r) = send_rst-IsReset c in (c', rw e p, inr r)
  | inr e ↦ (c, rw e, inl (ltb→ge _ _ e))
]

limits_after :
    (c : TcpConnection)
    → (c.sender.consecutive_retran ≤ max_retx_attempts) ⊎ IsReset c
    → ((close_if_done c).sender.consecutive_retran ≤ max_retx_attempts) ⊎ IsReset (close_if_done c)
limits_after c (inl h) =
    inl (omega (arith, h, ap (λ x. x.consecutive_retran) (close_if_done-sender c)))
limits_after c (inr r) = inr (close_if_done-IsReset c r)

-- After every tick no segment has been retransmitted more than eight times in a row, or else the
-- connection is closed, both its streams have failed, and an RST is the only segment that it sends.
pub tick_limits :
    (s : ℕ → ℕ) (isn : WrappingInt32) (capacity : ℕ) (g : List ℕ) (b : Bool) (ms : ℕ)
    (c : TcpConnection)
    → IsU32 isn
    → Sound s isn capacity g b c
    → (c' : TcpConnection) × (tick ms c ≡ ok c')
      × ((c'.sender.consecutive_retran ≤ max_retx_attempts) ⊎ IsReset c')
unfolding tick
tick_limits s isn capacity g b ms c small v =
    let (c1, e1, v1) = advance_time-Sound s isn capacity small g b ms c v in
    let (c2, e2, v2) = tick_sender-Sound s isn capacity small g b ms c1 v1 in
    let (c3, e3, l) = give_up_limits c2 in (close_if_done c3, rw (e1, e2, e3), limits_after c3 l)

-- The last attempt: the timer runs out on a segment that was retransmitted eight times in a row.
abbrev pub IsLastAttempt : ℕ → TcpConnection → Type 0
IsLastAttempt ms c =
    (q : List TcpSegment) × (seg : TcpSegment) × (c.sender.retransmission_queue ≡ seg ∷ q)
    × (c.sender.last_retrans_seqno ≡ some seg.header.seqno)
    × (c.sender.consecutive_retran ≡ 8)
    × (0 < c.sender.window_size)
    × (c.sender.timer.running ≡ true)
    × (c.sender.timer.rto ≤ ms)

ninth :
    (ms : ℕ) (s : TcpSender) (seg : TcpSegment) (q : List TcpSegment)
    → s.retransmission_queue ≡ seg ∷ q
    → s.last_retrans_seqno ≡ some seg.header.seqno
    → s.consecutive_retran ≡ 8
    → 0 < s.window_size
    → s.timer.running ≡ true
    → s.timer.rto ≤ ms
    → (s' : TcpSender) × (Sender.tick ms s ≡ ok s') × (s'.consecutive_retran ≡ 9)
ninth ms s seg q at last count wide runs out =
    let (s', e, x, _) = retransmit_front-Expired s seg q at wide in
    (
      s',
      tick-retransmit ms s runs out ∙ unfold Sender.retransmit in e,
      ground (arith, x.4, last, count),
    )

no_time :
    (ms : ℕ) (c : TcpConnection)
    → ByteStream.buffer_empty c.sender.stream ≡ true
    → ByteStream.eof c.sender.stream ≡ false
    → advance_time ms c ≡ ok (record c { tick = add64 c.tick ms })
unfolding advance_time
no_time ms c e n = rw (e, n)

gives_up :
    (c c' : TcpConnection)
    → c.sender.consecutive_retran ≡ 9
    → send_rst c ≡ ok c'
    → give_up c ≡ ok c'
unfolding give_up Sender.consecutive_retransmissions
gives_up c c' k e =
    let h : ltb max_retx_attempts c.sender.consecutive_retran ≡ true =
      ap (ltb max_retx_attempts) k in
    rw h e

sender_ticks :
    (ms : ℕ) (c : TcpConnection) (s' : TcpSender)
    → Sender.tick ms c.sender ≡ ok s'
    → tick_sender ms c
      ≡ ok (
          if is_empty s'.segments_out
          then record c { sender = s' }
          else send_segment (record c { sender = s' }))
unfolding tick_sender
sender_ticks ms c s' p = rw p

count_after :
    (c : TcpConnection) (b : Bool)
    → (if b then c else send_segment c).sender.consecutive_retran ≡ c.sender.consecutive_retran
unfolding send_segment
count_after c true = refl
count_after c false = refl

-- When nothing waits to be written, the ninth retransmission in a row of one segment is not sent: the
-- connection is closed, both its streams fail, and an RST is the only segment that it sends.
pub tick_gives_up :
    (ms : ℕ) (c : TcpConnection)
    → IsLastAttempt ms c
    → ByteStream.buffer_empty c.sender.stream ≡ true
    → ByteStream.eof c.sender.stream ≡ false
    → (c' : TcpConnection) × (tick ms c ≡ ok c') × IsReset c'
unfolding tick
tick_gives_up ms c (q, seg, at, last, count, wide, runs, out) e n =
    let c1 : TcpConnection = record c { tick = add64 c.tick ms } in
    let (s', p, k) = ninth ms c.sender seg q at last count wide runs out in
    let c2 : TcpConnection =
      if is_empty s'.segments_out
      then record c1 { sender = s' }
      else send_segment (record c1 { sender = s' }) in
    let (c3, r, x) = send_rst-IsReset c2 in
    (
      close_if_done c3,
      rw (
        no_time ms c e n,
        sender_ticks ms c1 s' p,
        gives_up c2 c3 (count_after _ (is_empty s'.segments_out) ∙ k) r,
      ),
      close_if_done-IsReset c3 x,
    )
