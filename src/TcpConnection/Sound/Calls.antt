-- ===== src/TcpConnection/Sound/Calls.antt =====
-- The calls of the owner, and `tick`, part by part.
use cs144_sponge.Base.{
  ℕ, ◌≡◌, refl, Bool, true, false, not, ◌||◌, inl, inr, List, ltb, Bool-cases, is_empty, add64, ok,
  IsU32, if◌then◌else◌,
}
use cs144_sponge.WrappingIntegers.{WrappingInt32}
use cs144_sponge.ByteStream
use cs144_sponge.ByteStream.Inv as Stream
use cs144_sponge.ByteStream.Inv.{contents}
use cs144_sponge.TcpSender as Sender
use cs144_sponge.TcpSender.{TcpSender}
use cs144_sponge.TcpSender.Safe.{fill_window-Safe, tick-Safe}
use cs144_sponge.TcpConnection.{
  TcpConnection, send_segment, flush, write, end_input_stream, connect, advance_time, tick_sender,
  give_up, close_if_done, tick, is_done, max_retx_attempts,
}
use cs144_sponge.TcpConnection.Sound.{
  Sound, with_stream-Safe, same-Sound, send_segment-Sound, send_rst-Sound,
}

end_input-Inv : {o : ByteStream.ByteStream} → Stream.Inv o → Stream.Inv (ByteStream.end_input o)
unfolding ByteStream.end_input contents
end_input-Inv v = record {
  sized = v.sized;
  bounded = v.bounded;
  capacity_fits = v.capacity_fits;
  read_fits = v.read_fits;
  counted = v.counted;
}

pub stays_closed : (x : Bool) {y : Bool} → y ≡ true → (if x then y else true) ≡ true
stays_closed true e = e
stays_closed false e = refl

module _ (s : ℕ → ℕ) (isn : WrappingInt32) (capacity : ℕ) (small : IsU32 isn) (g : List ℕ)
    (b : Bool) where
  abbrev Is : TcpConnection → Type 0
  Is c = Sound s isn capacity g b c

  flush-Sound : (c : TcpConnection) → Is c → (c' : TcpConnection) × (flush c ≡ ok c') × Is c'
  unfolding flush
  flush-Sound c v =
      let (q, e, w, _, _) = fill_window-Safe c.sender v.safe in
      let c1 : TcpConnection = record c { sender = q } in
      let v1 : Is c1 = record { seen = v.seen; hears = v.hears; shut = v.shut; safe = w } in
      (send_segment c1, rw e, send_segment-Sound s isn capacity small g b c1 v1)

  streaming-Sound :
      (o : ByteStream.ByteStream) (c : TcpConnection)
      → Stream.Inv o
      → Is c
      → Is (record c { sender = record (c.sender) { stream = o } })
  streaming-Sound o c h v = record {
    seen = v.seen;
    hears = v.hears;
    shut = v.shut;
    safe = with_stream-Safe c.sender o h v.safe;
  }

  pub write-Sound :
      (d : List ℕ) (c : TcpConnection)
      → Is c
      → (n : ℕ) × (c' : TcpConnection) × (write d c ≡ ok (n, c')) × Is c'
  unfolding write
  write-Sound d c v =
      let (c', e, w) =
        flush-Sound _ (streaming-Sound _ c (Stream.write-Inv d v.safe.stream_valid) v) in
      ((ByteStream.write d c.sender.stream).0, c', rw e, w)

  pub end_input_stream-Sound :
      (c : TcpConnection) → Is c → (c' : TcpConnection) × (end_input_stream c ≡ ok c') × Is c'
  unfolding end_input_stream
  end_input_stream-Sound c v =
      flush-Sound _ (streaming-Sound _ c (end_input-Inv v.safe.stream_valid) v)

  pub connect-Sound :
      (c : TcpConnection) → Is c → (c' : TcpConnection) × (connect c ≡ ok c') × Is c'
  unfolding connect
  connect-Sound c v = flush-Sound c v

  pub advance_time-Sound :
      (ms : ℕ) (c : TcpConnection)
      → Is c
      → (c' : TcpConnection) × (advance_time ms c ≡ ok c') × Is c'
  unfolding advance_time
  advance_time-Sound ms c v =
      let v1 =
        same-Sound s isn capacity small g b c (record c { tick = add64 c.tick ms }) refl refl
          (λ h. h) v in
      elim (Bool-cases
        (not (ByteStream.buffer_empty c.sender.stream) || ByteStream.eof c.sender.stream)) [
          | inl e ↦ let (c', p, w) = flush-Sound _ v1 in (c', rw e p, w)
          | inr e ↦ (_, rw e, v1)
        ]

  or_send-Sound : (c : TcpConnection) (b : Bool) → Is c → Is (if b then c else send_segment c)
  or_send-Sound c true v = v
  or_send-Sound c false v = send_segment-Sound s isn capacity small g b c v

  pub tick_sender-Sound :
      (ms : ℕ) (c : TcpConnection)
      → Is c
      → (c' : TcpConnection) × (tick_sender ms c ≡ ok c') × Is c'
  unfolding tick_sender
  tick_sender-Sound ms c v =
      let (q, e, w) = tick-Safe ms c.sender v.safe in
      let c1 : TcpConnection = record c { sender = q } in
      let v1 : Is c1 = record { seen = v.seen; hears = v.hears; shut = v.shut; safe = w } in
      (
        if is_empty q.segments_out then c1 else send_segment c1,
        rw e,
        or_send-Sound c1 (is_empty q.segments_out) v1,
      )

  give_up-Sound : (c : TcpConnection) → Is c → (c' : TcpConnection) × (give_up c ≡ ok c') × Is c'
  unfolding give_up
  give_up-Sound c v =
      elim (Bool-cases (ltb max_retx_attempts (Sender.consecutive_retransmissions c.sender))) [
        | inl e ↦ let (c', p, w) = send_rst-Sound s isn capacity small g b c v in (c', rw e p, w)
        | inr e ↦ (c, rw e, v)
      ]

  close_if_done-Sound : (c : TcpConnection) → Is c → Is (close_if_done c)
  unfolding close_if_done
  close_if_done-Sound c v = elim (Bool-cases (is_done c)) [
    | inl e ↦
        rw (e, close_if_done) (same-Sound s isn capacity small g b c _ refl refl (stays_closed _) v)
    | inr e ↦ rw (e, close_if_done) v
  ]

  -- So is a tick of any length.
  pub tick-Sound :
      (ms : ℕ) (c : TcpConnection) → Is c → (c' : TcpConnection) × (tick ms c ≡ ok c') × Is c'
  unfolding tick
  tick-Sound ms c v =
      let (c1, e1, v1) = advance_time-Sound ms c v in
      let (c2, e2, v2) = tick_sender-Sound ms c1 v1 in
      let (c3, e3, v3) = give_up-Sound c2 v2 in
      (close_if_done c3, rw (e1, e2, e3), close_if_done-Sound c3 v3)
