-- ===== src/TcpSpongeSocket/OverUdp.antt =====
-- The socket's adapter over UDP.
use cs144_sponge.Base.{
  ℕ, ◌≤◌, ◌≡◌, ◌==◌, not, ◌&&◌, refl, true, false, Bool-cases, inl, inr, Option, none, List, ok,
  arith, subst, sym, IsU16, ltb, length, [], ◌∷◌, ◌++◌,
}
use cs144_sponge.WrappingIntegers.{WrappingInt32}
use cs144_sponge.Buffer
use cs144_sponge.Buffer.Laws.{str-of_string}
use cs144_sponge.BufferList
use cs144_sponge.BufferViewList
use cs144_sponge.BufferViewList.Laws.{bytes}
use cs144_sponge.NetParser.{ParseResult, no_error, is_error}
use cs144_sponge.TcpSegment
use cs144_sponge.TcpSegment.{TcpSegment}
use cs144_sponge.TcpSegment.Wire as Segment
use cs144_sponge.TcpHeader.{TcpHeader}
use cs144_sponge.TcpReceiver.Session.{Place}
use cs144_sponge.TcpSegment.Wire.RoundTrip.{
  IsCarried, right_cksum, with_cksum, parse_carried, length-with_cksum,
}
use cs144_sponge.TcpSegment.Wire.Written.{serialize_written}
use cs144_sponge.TcpSender.Plain.{IsPlain}
use cs144_sponge.TcpConnection.Sound.{IsGenuine}
use cs144_sponge.FileDescriptor.{returned, FdWrapper, system_call, register_read, register_write}
use cs144_sponge.FileDescriptor.Streams.{counted_read}
use cs144_sponge.FdAdapter.{
  Address, FdAdapterBase, same_endpoint, accept_udp, read_udp, write_udp, set_ports,
}
use cs144_sponge.Sockets.{Received, came, default_mtu, recv, sendto, sendmsg_helper}
use cs144_sponge.TcpSpongeSocket.Adapters.{udp_adapter}
use cs144_sponge.TcpSpongeSocket.Callbacks.{Carries, FromPeer}

-- What comes in is a datagram of at most `mtu` bytes; if it is read as a segment, the segment is the
-- peer's.
pub record Carrier (received : Received) (s : ℕ → ℕ) (isn : WrappingInt32) : Type 0 where
  pub source : Address
  pub payload : List ℕ
  pub outcome : ParseResult
  pub read_as : TcpSegment
  pub comes : received ≡ came source payload
  pub fits : length payload ≤ default_mtu
  pub parses : Segment.parse TcpSegment.new (Buffer.of_string payload) 0 ≡ ok (outcome, read_as)
  pub genuine : is_error outcome ≡ false → IsGenuine s isn read_as

-- Such a datagram is what a segment of the peer is written as.
pub carried-Carrier :
    (seg : TcpSegment) (source : Address) (s : ℕ → ℕ) (isn : WrappingInt32)
    → IsCarried seg
    → IsGenuine s isn seg
    → Carrier (came source (with_cksum seg (right_cksum seg 0))) s isn
carried-Carrier seg source s isn w g =
    let (seg', e, header, payload) =
      parse_carried TcpSegment.new seg 0 (Buffer.of_string (with_cksum seg (right_cksum seg 0))) w
        (omega arith) (str-of_string _) in
    record {
      source = source;
      payload = with_cksum seg (right_cksum seg 0);
      outcome = no_error;
      read_as = seg';
      comes = refl;
      fits = omega (arith, length-with_cksum seg 0 w, w.payload_fits);
      parses = e;
      genuine = λ h.
          subst
            (λ (x : TcpHeader). Place s isn x.syn x.seqno (Buffer.str seg'.payload) × IsU16 x.win)
            (sym header)
            (subst (λ d. Place s isn seg.header.syn seg.header.seqno d × IsU16 seg.header.win)
              (sym payload) g);
    }

accept_udp-FromPeer :
    (a : FdAdapterBase) (source : Address) (s : ℕ → ℕ) (isn : WrappingInt32) (seg : TcpSegment)
    → IsGenuine s isn seg
    → FromPeer s isn (accept_udp a source seg).0
unfolding accept_udp
accept_udp-FromPeer a source s isn seg g = elim (Bool-cases (not a.listen)) [
  | inl h ↦ rw h g
  | inr h ↦ elim (Bool-cases (seg.header.syn && not seg.header.rst)) [
    | inl k ↦ rw (h, k) g
    | inr k ↦ rw (h, k) tt
  ]
]

read_udp-FromPeer :
    (a : FdAdapterBase) (source : Address) (payload : List ℕ) (s : ℕ → ℕ) (isn : WrappingInt32)
    (o : ParseResult) (seg : TcpSegment)
    → Segment.parse TcpSegment.new (Buffer.of_string payload) 0 ≡ ok (o, seg)
    → (is_error o ≡ false → IsGenuine s isn seg)
    → (r : Option TcpSegment) × (a' : FdAdapterBase) × (read_udp a source payload ≡ ok (r, a'))
      × FromPeer s isn r
unfolding read_udp
read_udp-FromPeer a source payload s isn o seg e g =
    elim (Bool-cases (not a.listen && not (same_endpoint source a.cfg.destination))) [
      | inl h ↦ (none, a, rw h refl, tt)
      | inr h ↦ elim (Bool-cases (is_error o)) [
        | inl k ↦ (none, a, rw (h, e, k), tt)
        | inr k ↦
            let out : Option TcpSegment × FdAdapterBase = accept_udp a source seg in
            (out.0, out.1, rw (h, e, k), accept_udp-FromPeer a source s isn seg (g k))
      ]
    ]

sendto_whole :
    (to : Address) (views : BufferViewList.BufferViewList) (f : FdWrapper)
    → sendto (returned (BufferViewList.size views)) to views f
      ≡ ok ((to, bytes views), register_write f)
unfolding sendto sendmsg_helper system_call
sendto_whole to views f =
    let whole : (BufferViewList.size views == BufferViewList.size views) ≡ true = ground arith in
    rw whole

write_udp_ok :
    (a : FdAdapterBase) (seg : TcpSegment)
    → IsPlain seg
    → (out : BufferList.BufferList) × (write_udp a seg
        ≡ ok (a.cfg.destination, out, set_ports a seg))
unfolding write_udp
write_udp_ok a seg p =
    let (out, e) = serialize_written (set_ports a seg) 0 p (omega arith) in (out, rw e refl)

-- Over a kernel that sends each datagram whole, and datagrams that carry segments of the peer or none
-- at all, the adapter does what the socket relies on, in every state.
pub udp_adapter-Carries :
    (received : ℕ → Received) (s : ℕ → ℕ) (isn : WrappingInt32)
    → ((i : ℕ) → Carrier (received i) s isn)
    → Carries (udp_adapter received (λ i size. returned size)) s isn (λ a. Unit {0})
unfolding udp_adapter recv
udp_adapter-Carries received s isn carrier = record {
  reads = λ i a q.
      let v : Carrier (received i) s isn = carrier i in
      let short : ltb default_mtu (length v.payload) ≡ false = ground (arith, v.fits) in
      let (r, base, e, from) =
        read_udp-FromPeer a.base v.source v.payload s isn v.outcome v.read_as v.parses v.genuine in
      (
        r,
        record a { base = base; sock = register_read a.sock },
        rw (v.comes, short, e),
        from,
        tt,
        unfold register_read in counted_read a.sock.read_count,
      );
  writes = λ i seg a p q.
      let (out, e) = write_udp_ok a.base seg p in
      let views : BufferViewList.BufferViewList = BufferViewList.of_buffers out in
      (
        record a {
          sock = register_write a.sock;
          sent = a.sent ++ ((a.base.cfg.destination, bytes views) ∷ []);
        },
        rw (e, sendto_whole a.base.cfg.destination views a.sock),
        tt,
      );
  ticks = λ ms a q. (a, refl, tt);
}
