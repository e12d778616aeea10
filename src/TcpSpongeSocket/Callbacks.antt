-- ===== src/TcpSpongeSocket/Callbacks.antt =====
-- The callbacks of the socket's rules, one by one.
use cs144_sponge.Base.{
  ℕ, ◌+◌, ◌≤◌, ◌≡◌, refl, sym, ap, subst, ◌∙◌, Bool, true, false, ◌&&◌, ◌||◌, Bool-cases, inl, inr,
  Option, none, some, List, [], ◌∷◌, ◌++◌, arith, length, take, drop, min, ◌==◌, sub64, ◌⊎◌, ok,
  All, Result, IsU32, if◌then◌else◌, bind_ok, ==_iff,
}
use cs144_sponge.WrappingIntegers.{WrappingInt32}
use cs144_sponge.BufferViewList
use cs144_sponge.BufferViewList.Laws.{bytes}
use cs144_sponge.ByteStream
use cs144_sponge.ByteStream.{ByteStream}
use cs144_sponge.ByteStream.Inv as Stream
use cs144_sponge.ByteStream.Inv.{contents, Left, pop_output_ok}
use cs144_sponge.TcpReceiver
use cs144_sponge.TcpReceiver.Session.{read-Hears}
use cs144_sponge.TcpSender.{TcpSender}
use cs144_sponge.TcpSegment.{TcpSegment}
use cs144_sponge.TcpConnection as Connection
use cs144_sponge.TcpConnection.{TcpConnection}
use cs144_sponge.TcpConnection.Sound.{Sound, IsGenuine, same-Sound}
use cs144_sponge.TcpConnection.Sound.Arrival.{segment_received-Sound}
use cs144_sponge.TcpConnection.Sound.Calls.{write-Sound, end_input_stream-Sound, tick-Sound}
use cs144_sponge.TcpConnection.Ended.{segment_received-Same, write-Same, tick-Same}
use cs144_sponge.TcpSender.Plain.{IsPlain}
use cs144_sponge.TcpConnection.Plain.{
  Plain, same-Plain, segment_received-Plain, write-Plain, end_input_stream-Plain, tick-Plain,
}
use cs144_sponge.FileDescriptor
use cs144_sponge.FileDescriptor.{
  Answer, returned, Reading, gave, FdWrapper, Written, system_call, register_read, register_write,
  buffer_size,
}
use cs144_sponge.FileDescriptor.Streams.{
  counted_read, counted_twice, after_read, read_gave, accepts_all, taken_low,
}
use cs144_sponge.FileDescriptor.Write.{Takes, write_some_sends}
use cs144_sponge.Sockets.{shutdown}
use cs144_sponge.EventLoop.{Rule, service_count}
use cs144_sponge.EventLoop.SetUp.{Free, Guarded}
use cs144_sponge.TcpSpongeSocket.{
  Adapter, Environment, Socket, arrived, read_datagram, end_outbound, take_data, read_pipe,
  wants_pipe, set_inbound, close_inbound, write_pipe, write_all, write_datagrams, rule_1, rule_2,
  rule_3, rule_4, pass_time,
}

abbrev pub FromPeer : (ℕ → ℕ) → WrappingInt32 → Option TcpSegment → Type 0
FromPeer s isn none = Unit {0}
FromPeer s isn (some seg) = IsGenuine s isn seg

-- An adapter that is well as long as `Q` holds: it gives segments of the peer only, a read is counted,
-- and no read, no tick and no write of a segment without options throws.
pub record Carries {A : Type 0} (ad : Adapter A) (s : ℕ → ℕ) (isn : WrappingInt32) (Q : A → Type 0)
    : Type 0 where
  pub reads :
      (i : ℕ) (a : A)
      → Q a
      → (o : Option TcpSegment) × (a' : A) × (Adapter.read ad i a ≡ ok (o, a'))
        × FromPeer s isn o
        × Q a'
        × (((Adapter.descriptor ad a).read_count == (Adapter.descriptor ad a').read_count) ≡ false)
  pub writes :
      (i : ℕ) (seg : TcpSegment) (a : A)
      → IsPlain seg
      → Q a
      → (a' : A) × (Adapter.write ad i seg a ≡ ok a') × Q a'
  pub ticks : (ms : ℕ) (a : A) → Q a → (a' : A) × (Adapter.tick ad ms a ≡ ok a') × Q a'

-- What the kernel promises for a local stream socket that it has called ready: a read gives no more
-- than was asked for, a write takes some of what it is offered, and neither fails.
pub record Kernel (env : Environment) : Type 0 where
  pub reads :
      (call limit : ℕ)
      → (d : List ℕ) × (env.read_pipe call limit ≡ gave d) × (length d ≤ min buffer_size limit)
  pub writes : (call round size : ℕ) → Takes size (env.write_pipe call round size)
  pub shuts : (call : ℕ) → (n : ℕ) × (env.shutdown_pipe call ≡ returned n)

written :
    (d : List ℕ) (c c' : TcpConnection) (n : ℕ)
    → Connection.write d c ≡ ok (n, c')
    → n ≡ (ByteStream.write d c.sender.stream).0
unfolding Connection.write
written d c c' n e =
    let (c1, e1, e2) =
      bind_ok
        (Connection.flush (record c {
          sender = record (c.sender) { stream = (ByteStream.write d c.sender.stream).1 };
        }))
        _ e in
    ground (arith, e2)

-- What rule 3 offers the pipe.
abbrev offered : {A : Type 0} → Socket TcpConnection A → BufferViewList.BufferViewList
offered w =
    let inbound = Connection.inbound_stream w.tcp in
    BufferViewList.of_string
      (ByteStream.peek_output inbound (min 65536 (ByteStream.buffer_size inbound)))

module _ {A : Type 0} (ad : Adapter A) (env : Environment) (s : ℕ → ℕ) (isn : WrappingInt32)
    (capacity : ℕ) (small : IsU32 isn) (Q : A → Type 0) (carries : Carries ad s isn Q)
    (kernel : Kernel env) where
  -- What was delivered and is buffered is the beginning of the peer's bytes, no segment of the
  -- connection has options, the outbound stream has been ended only with `_outbound_shutdown`, and the
  -- adapter is well.
  pub record Running (w : Socket TcpConnection A) : Type 0 where
    pub sound : Sound s isn capacity w.delivered false w.tcp
    pub plain : Plain w.tcp
    pub ended : w.tcp.sender.stream.end_flag ≡ true → w.outbound_shutdown ≡ true
    pub well : Q w.datagram_adapter

  abbrev pub Open : Socket TcpConnection A → Type 0
  Open w = w.tcp.sender.stream.end_flag ≡ false

  arrived-Running :
      (o : Option TcpSegment) (call : ℕ) (w : Socket TcpConnection A)
      → FromPeer s isn o
      → Running w
      → (c : TcpConnection) × (arrived ad env o call w.tcp ≡ ok c)
        × Sound s isn capacity w.delivered false c
        × Plain c
        × (c.sender.stream.end_flag ≡ w.tcp.sender.stream.end_flag)
  unfolding arrived
  arrived-Running none call w p v = (w.tcp, refl, v.sound, v.plain, refl)
  arrived-Running (some seg) call w p v =
      let (c, e, v') =
        segment_received-Sound s isn capacity small w.delivered false (env.order call) seg w.tcp p
          v.sound in
      (
        c,
        e,
        v',
        segment_received-Plain (env.order call) seg w.tcp c e v.plain,
        segment_received-Same (env.order call) seg w.tcp c e,
      )

  pub rule_1-Free : Free Running Open (rule_1 ad env)
  unfolding rule_1 read_datagram service_count
  rule_1-Free = record {
    cancels = λ w v. (w, refl, v, λ g. g);
    calls = λ w v.
        let (o, a, e1, p, q, counted) = carries.reads w.calls w.datagram_adapter v.well in
        let (c, e2, v2, plain, same) = arrived-Running o w.calls w p v in
        (
          record w {
            datagram_adapter = a;
            tcp = c;
            calls = w.calls + 1;
            fully_acked = w.fully_acked || (w.thread_data.eof && Connection.bytes_in_flight c == 0);
          },
          rw (e1, e2),
          record { sound = v2; plain = plain; ended = λ h. v.ended (sym same ∙ h); well = q },
          λ g. same ∙ g,
          rw counted,
        );
  }

  write_all-well :
      (call : ℕ) (q : List TcpSegment) (a : A)
      → All IsPlain q
      → Q a
      → (a' : A) × (write_all ad env call q a ≡ ok a') × Q a'
  unfolding write_all
  write_all-well call [] a p v = (a, refl, v)
  write_all-well call (seg ∷ q) a (p, ps) v =
      let (a1, e1, v1) = carries.writes call seg a p v in
      let (a2, e2, v2) = write_all-well call q a1 ps v1 in (a2, rw e1 e2, v2)

  pub rule_4-Free : Free Running Open (rule_4 ad env)
  unfolding rule_4 write_datagrams service_count
  rule_4-Free = record {
    cancels = λ w v. (w, refl, v, λ g. g);
    calls = λ w v.
        let (a, e, q) =
          write_all-well w.calls w.tcp.segments_out w.datagram_adapter v.plain.out v.well in
        (
          record w {
            datagram_adapter = a;
            tcp = record (w.tcp) { segments_out = [] };
            calls = w.calls + 1;
          },
          rw e,
          record {
            sound =
                same-Sound s isn capacity small w.delivered false w.tcp
                  (record (w.tcp) { segments_out = [] }) refl refl (λ h. h) v.sound;
            plain = record { out = tt; sending = v.plain.sending };
            ended = v.ended;
            well = q;
          },
          λ g. g,
          ground arith,
        );
  }

  end_outbound-Running :
      (w : Socket TcpConnection A)
      → Running w
      → (w' : Socket TcpConnection A) × (end_outbound ad env w ≡ ok w')
        × Running w'
        × (w'.thread_data ≡ w.thread_data)
  unfolding end_outbound
  end_outbound-Running w v =
      let (c, e, v1) =
        end_input_stream-Sound s isn capacity small w.delivered false w.tcp v.sound in
      (
        record w { tcp = c; outbound_shutdown = true },
        rw e,
        record {
          sound = v1;
          plain = end_input_stream-Plain w.tcp c e v.plain;
          ended = λ h. refl;
          well = v.well;
        },
        refl,
      )

  take_data-Running :
      (d : List ℕ) (w : Socket TcpConnection A)
      → Running w
      → Open w
      → length d ≤ Connection.remaining_outbound_capacity w.tcp
      → (w' : Socket TcpConnection A) × (take_data ad env d w ≡ ok w')
        × Running w'
        × (w'.thread_data ≡ w.thread_data)
  unfolding take_data Connection.remaining_outbound_capacity
  take_data-Running d w v g fits =
      let (n, c, e, v1) = write-Sound s isn capacity small w.delivered false d w.tcp v.sound in
      let w1 : Socket TcpConnection A = record w { tcp = c } in
      let all : (n == length d) ≡ true =
        (==_iff _ _).1 (written d w.tcp c n e ∙ accepts_all d _ v.sound.safe.stream_valid g fits) in
      let v1' : Running w1 = record {
        sound = v1;
        plain = write-Plain d w.tcp c n e v.plain;
        ended = λ h. v.ended (sym (write-Same d w.tcp c n e) ∙ h);
        well = v.well;
      } in
      let branch : Bool → Result (Socket TcpConnection A) =
        λ x. if x then end_outbound ad env w1 else ok w1 in
      let on : take_data ad env d w ≡ branch w.thread_data.eof = rw (e, all) in
      elim (Bool-cases w.thread_data.eof) [
        | inl h ↦
            let (w', e', v', same) = end_outbound-Running w1 v1' in
            (w', on ∙ ap branch h ∙ e', v', same)
        | inr h ↦ (w1, on ∙ ap branch h, v1', refl)
      ]

  Open-while : (w : Socket TcpConnection A) → w.outbound_shutdown ≡ false → Running w → Open w
  Open-while w e v = elim (Bool-cases w.tcp.sender.stream.end_flag) [
    | inl h ↦ ground (arith, v.ended h, e)
    | inr h ↦ h
  ]

  pub rule_2-Guarded : Guarded Running Open (rule_2 ad env)
  unfolding rule_2 read_pipe service_count wants_pipe register_read
  rule_2-Guarded = record {
    wants = λ w v h. Open-while w (ground (arith, h)) v;
    cancels = λ w v. let (w', e, v', _) = end_outbound-Running w v in (w', e, v');
    calls = λ w v g.
        let limit : ℕ = Connection.remaining_outbound_capacity w.tcp in
        let (d, e, fits) = kernel.reads w.calls limit in
        let f : FdWrapper = after_read w.thread_data limit d in
        let w1 : Socket TcpConnection A = record w { thread_data = f; calls = w.calls + 1 } in
        let (w', e', v', same) =
          take_data-Running d w1
            (record { sound = v.sound; plain = v.plain; ended = v.ended; well = v.well }) g
            (omega (arith, fits)) in
        (
          w',
          rw (e, read_gave w.thread_data limit d fits) e',
          v',
          ground (
            arith,
            ap (λ (x : FdWrapper). x.read_count) same,
            counted_read w.thread_data.read_count,
          ),
        );
  }

  -- What the peer's bytes lose at the front, the owner has.
  given-Sound :
      (n : ℕ) (g : List ℕ) (c : TcpConnection) (out : ByteStream)
      → Left c.receiver.reassembler.output (drop n (contents c.receiver.reassembler.output)) out
      → Sound s isn capacity g false c
      → Sound s isn capacity
          (g ++ take n (contents c.receiver.reassembler.output))
          false
          (set_inbound ad env out c)
  unfolding set_inbound
  given-Sound n g c out l v = record {
    seen = v.seen;
    hears = read-Hears s isn capacity small n v.seen _ out v.hears l;
    safe = v.safe;
    shut = v.shut;
  }

  close_inbound-Running :
      (out : ByteStream) (w : Socket TcpConnection A)
      → Running w
      → (w' : Socket TcpConnection A) × (close_inbound ad env out w ≡ ok w')
        × Running w'
        × (w'.tcp ≡ w.tcp)
        × ((w'.thread_data ≡ w.thread_data) ⊎ (w'.thread_data ≡ register_write w.thread_data))
  unfolding close_inbound shutdown system_call
  close_inbound-Running out w v =
      let (n, e) = kernel.shuts w.calls in
      elim (Bool-cases (ByteStream.eof out || ByteStream.error out)) [
        | inl h ↦ (
          record w { thread_data = register_write w.thread_data; inbound_shutdown = true },
          rw (h, e),
          record { sound = v.sound; plain = v.plain; ended = v.ended; well = v.well },
          refl,
          inr refl,
        )
        | inr h ↦ (w, rw h, v, refl, inl refl)
      ]

  -- The callback when both of its calls succeed.
  piped :
      (w : Socket TcpConnection A) (r : Written) (out : ByteStream)
      → FileDescriptor.write (env.write_pipe w.calls) w.thread_data (offered w) false ≡ ok r
      → ByteStream.pop_output (Connection.inbound_stream w.tcp) r.0 ≡ ok out
      → write_pipe ad env w
        ≡ close_inbound ad env out (record w {
          thread_data = r.2;
          tcp = set_inbound ad env out w.tcp;
          calls = w.calls + 1;
          delivered = w.delivered ++ r.1;
        })
  unfolding write_pipe
  piped w r out e1 e2 = rw (e1, e2)

  otherwise_counted :
      (f f' : FdWrapper)
      → (f' ≡ register_write f) ⊎ (f' ≡ register_write (register_write f))
      → (f.write_count == f'.write_count) ≡ false
  unfolding register_write
  otherwise_counted f f' (inl e) =
      ap (λ (x : FdWrapper). f.write_count == x.write_count) e ∙ counted_read f.write_count
  otherwise_counted f f' (inr e) =
      ap (λ (x : FdWrapper). f.write_count == x.write_count) e ∙ counted_twice f.write_count

  -- The owner is written a beginning of what is buffered.
  write_pipe-Running :
      (w : Socket TcpConnection A)
      → Running w
      → (w' : Socket TcpConnection A) × (write_pipe ad env w ≡ ok w')
        × Running w'
        × (w'.tcp.sender ≡ w.tcp.sender)
        × ((w.thread_data.write_count == w'.thread_data.write_count) ≡ false)
  unfolding Connection.inbound_stream TcpReceiver.stream_out set_inbound
  write_pipe-Running w v =
      let inbound : ByteStream = w.tcp.receiver.reassembler.output in
      let valid : Stream.Inv inbound = v.sound.hears.faithful.valid.stream in
      let m : ℕ = min 65536 (ByteStream.buffer_size inbound) in
      let views : BufferViewList.BufferViewList = offered w in
      let t : Takes (BufferViewList.size views)
          (env.write_pipe w.calls 0 (BufferViewList.size views)) =
        kernel.writes w.calls 0 (BufferViewList.size views) in
      let n : ℕ = Takes.taken t in
      let (low, shown) = taken_low inbound m n valid (Takes.at_most t) in
      let sent = write_some_sends (env.write_pipe w.calls) w.thread_data views t in
      let (out, e, l) = pop_output_ok n valid low in
      let w1 : Socket TcpConnection A = record w {
        thread_data = register_write w.thread_data;
        tcp = set_inbound ad env out w.tcp;
        calls = w.calls + 1;
        delivered = w.delivered ++ take n (bytes views);
      } in
      let v1 : Running w1 = record {
        sound =
            subst
              (λ g. Sound s isn capacity (w.delivered ++ g) false (set_inbound ad env out w.tcp))
              (sym shown) (given-Sound n w.delivered w.tcp out l v.sound);
        plain = same-Plain w.tcp (set_inbound ad env out w.tcp) refl refl refl v.plain;
        ended = v.ended;
        well = v.well;
      } in
      let (w', e', v', same, fd) = close_inbound-Running out w1 v1 in
      (
        w',
        piped w (n, take n (bytes views), register_write w.thread_data) out sent e ∙ e',
        v',
        ap (λ (c : TcpConnection). c.sender) same,
        otherwise_counted w.thread_data w'.thread_data fd,
      )

  pub rule_3-Free : Free Running Open (rule_3 ad env)
  unfolding rule_3 service_count
  rule_3-Free = record {
    cancels = λ w v. (w, refl, v, λ g. g);
    calls = λ w v.
        let (w', e, v', same, counted) = write_pipe-Running w v in
        (
          w',
          e,
          v',
          λ g. ap (λ (x : TcpSender). x.stream.end_flag) same ∙ g,
          ap (λ b. b && Rule.interest (rule_3 ad env) w') counted,
        );
  }

  -- The end of a round.
  pub pass_time-Running :
      (base_time now : ℕ) (w : Socket TcpConnection A)
      → Running w
      → (base_time' : ℕ) × (w' : Socket TcpConnection A) × (pass_time ad env base_time now w
          ≡ ok (base_time', w'))
        × Running w'
  unfolding pass_time
  pass_time-Running base_time now w v = elim (Bool-cases (Connection.active w.tcp)) [
    | inl h ↦
        let (c, e1, v1) =
          tick-Sound s isn capacity small w.delivered false (sub64 now base_time) w.tcp v.sound in
        let (a, e2, v2) = carries.ticks (sub64 now base_time) w.datagram_adapter v.well in
        (
          now,
          record w { tcp = c; datagram_adapter = a },
          rw (h, e1, e2),
          record {
            sound = v1;
            plain = tick-Plain (sub64 now base_time) w.tcp c e1 v.plain;
            ended = λ k. v.ended (sym (tick-Same (sub64 now base_time) w.tcp c e1) ∙ k);
            well = v2;
          },
        )
    | inr h ↦ (base_time, w, rw h, v)
  ]
