-- ===== src/TcpOverIp/Carried.antt =====
-- A segment travels in a datagram from one adapter to the other.
use cs144_sponge.Base.{
  ℕ, ◌+◌, ◌*◌, ◌<◌, ◌^◌, ◌≡◌, refl, sym, ap, ◌∙◌, true, false, Option, some, [], ◌∷◌, arith, length,
  ok, IsU32, bind_ok,
}
use cs144_sponge.Buffer
use cs144_sponge.Buffer.{Buffer}
use cs144_sponge.BufferList
use cs144_sponge.BufferList.Laws.{concatenate_one}
use cs144_sponge.NetParser
use cs144_sponge.NetParser.{no_error}
use cs144_sponge.TcpHeader.{TcpHeader}
use cs144_sponge.TcpSegment
use cs144_sponge.TcpSegment.{TcpSegment}
use cs144_sponge.TcpSegment.Wire as Segment
use cs144_sponge.TcpSegment.Wire.RoundTrip.{
  IsCarried, right_cksum, with_cksum, parse_carried, serialize_carried, length-with_cksum,
}
use cs144_sponge.Ipv4Header
use cs144_sponge.Ipv4Header.{Ipv4Header, payload_length, pseudo_cksum}
use cs144_sponge.Ipv4Header.Fields.{Fits}
use cs144_sponge.Ipv4Header.RoundTrip as Ip
use cs144_sponge.Ipv4Datagram
use cs144_sponge.Ipv4Datagram.{Ipv4Datagram, default_datagram}
use cs144_sponge.Ipv4Datagram.RoundTrip.{IsWhole, datagram_round_trip}
use cs144_sponge.FdAdapter.{Address, FdAdapterBase, set_ports}
use cs144_sponge.TcpOverIp.{
  is_related, filter_segment, unwrap_tcp_in_ip, header_for, wrap_tcp_in_ip,
}

-- The segment and its two headers fit in a datagram, and the addresses in their fields.
pub record IsSendable (a : FdAdapterBase) (seg : TcpSegment) : Type 0 where
  pub carried : IsCarried (set_ports a seg)
  pub fits : 20 + 4 * seg.header.doff + length (Buffer.str seg.payload) < 2 ^ 16
  pub source_fits : IsU32 a.cfg.source.ipv4_numeric
  pub destination_fits : IsU32 a.cfg.destination.ipv4_numeric

header_for-Fits :
    (a : FdAdapterBase) (seg : TcpSegment)
    → IsU32 a.cfg.source.ipv4_numeric
    → IsU32 a.cfg.destination.ipv4_numeric
    → Fits (header_for a seg)
unfolding header_for
header_for-Fits a seg src dst = record {
  version = refl;
  hlen_low = omega arith;
  hlen_high = omega arith;
  tos_fits = omega arith;
  len_fits = omega arith;
  id_fits = omega arith;
  offset_fits = omega arith;
  ttl_fits = omega arith;
  proto_fits = omega arith;
  cksum_fits = omega arith;
  src_fits = src;
  dst_fits = dst;
}

-- However large the fields are.
pseudo_cksum-bound : (h : Ipv4Header) → Fits h → pseudo_cksum h < 2 ^ 19
unfolding pseudo_cksum payload_length
pseudo_cksum-bound h v = omega (arith, v.src_fits, v.dst_fits, v.proto_fits)

-- The checksum field takes no part in the pseudo-header's sum.
cksum_apart : (h : Ipv4Header) (c : ℕ) → pseudo_cksum (record h { cksum = c }) ≡ pseudo_cksum h
unfolding pseudo_cksum payload_length
cksum_apart h c = refl

-- What is read without an error lies in one buffer.
pub one_buffer :
    (g d : Ipv4Datagram) (b : Buffer)
    → Ipv4Datagram.parse g b ≡ ok (no_error, d)
    → (c : Buffer) × (d.payload ≡ c ∷ [])
unfolding Ipv4Datagram.parse
one_buffer g d b e =
    let (x, parsed, rest) = bind_ok (Ipv4Header.parse g.header (NetParser.new b)) _ e in
    let q : d ≡ record { header = x.1; payload = x.2.buffer ∷ [] } = ground (arith, rest) in
    (x.2.buffer, ap (λ (y : Ipv4Datagram). y.payload) q)

related :
    (a b : FdAdapterBase) (seg : TcpSegment) (c : ℕ)
    → b.cfg.destination ≡ a.cfg.source
    → b.cfg.source ≡ a.cfg.destination
    → is_related b (record (header_for a seg) { cksum = c }) ≡ true
unfolding is_related header_for
related a b seg c e f =
    ground (arith, ap (λ (x : Address). x.ipv4_numeric) e, ap (λ (x : Address). x.ipv4_numeric) f)

passes :
    (t : ℕ → ℕ) (a b : FdAdapterBase) (h : Ipv4Header) (seg r : TcpSegment) (c : ℕ)
    → b.cfg.destination ≡ a.cfg.source
    → b.cfg.source ≡ a.cfg.destination
    → b.listen ≡ false
    → r.header ≡ record ((set_ports a seg).header) { cksum = c }
    → filter_segment t b h r ≡ (some r, b)
unfolding filter_segment
passes t a b h seg r c e f l s = ground (
  arith,
  l,
  ap (λ (x : Address). x.port) e,
  ap (λ (x : Address). x.port) f,
  ap (λ (x : TcpHeader). x.sport) s,
  ap (λ (x : TcpHeader). x.dport) s,
)

unwrap_ok :
    (t : ℕ → ℕ) (b : FdAdapterBase) (d : Ipv4Datagram) (c : Buffer) (r : TcpSegment)
    (o : Option TcpSegment) (b' : FdAdapterBase)
    → is_related b d.header ≡ true
    → d.payload ≡ c ∷ []
    → Segment.parse TcpSegment.new c (pseudo_cksum d.header) ≡ ok (no_error, r)
    → filter_segment t b d.header r ≡ (o, b')
    → unwrap_tcp_in_ip t b d ≡ ok (o, b')
unfolding unwrap_tcp_in_ip BufferList.to_buffer
unwrap_ok t b d c r o b' rel one e f = rw (rel, one, e, f)

total_length :
    (a : FdAdapterBase) (seg : TcpSegment) (n : ℕ)
    → 20 + 4 * seg.header.doff + length (Buffer.str seg.payload) < 2 ^ 16
    → n ≡ 4 * seg.header.doff + length (Buffer.str seg.payload)
    → (header_for a seg).len ≡ 4 * (header_for a seg).hlen + n
unfolding header_for Buffer.size
total_length a seg n lt e = omega (arith, lt, e)

-- The datagram for a segment is whole, and whatever is read back from it with the checksum filled in
-- and the same bytes is unwrapped at the other end.
pub wrapped-IsWhole :
    (through_text : ℕ → ℕ) (a b : FdAdapterBase) (seg : TcpSegment)
    → IsSendable a seg
    → b.cfg.destination ≡ a.cfg.source
    → b.cfg.source ≡ a.cfg.destination
    → b.listen ≡ false
    → (d : Ipv4Datagram) × (wrap_tcp_in_ip a seg ≡ ok (d, set_ports a seg))
      × IsWhole d
      × (d.header ≡ header_for a (set_ports a seg))
      × ((d' : Ipv4Datagram) (c : Buffer)
          → d'.payload ≡ c ∷ []
          → d'.header ≡ record (d.header) { cksum = Ip.right_cksum d.header }
          → BufferList.concatenate d'.payload ≡ BufferList.concatenate d.payload
          → (r : TcpSegment) × (unwrap_tcp_in_ip through_text b d' ≡ ok (some r, b))
            × (r.header ≡ record (seg.header) {
              sport = a.cfg.source.port;
              dport = a.cfg.destination.port;
              cksum = right_cksum (set_ports a seg) (pseudo_cksum d.header);
            })
            × (Buffer.str r.payload ≡ Buffer.str seg.payload))
unfolding wrap_tcp_in_ip
wrapped-IsWhole through_text a b seg w e f l =
    let seg1 : TcpSegment = set_ports a seg in
    let h : Ipv4Header = header_for a seg1 in
    let v : Fits h = header_for-Fits a seg1 w.source_fits w.destination_fits in
    let bound : pseudo_cksum h < 2 ^ 19 = pseudo_cksum-bound h v in
    let (payload, written, bytes) = serialize_carried seg1 (pseudo_cksum h) w.carried bound in
    let d : Ipv4Datagram = record { header = h; payload = payload } in
    let size : length (BufferList.concatenate payload)
        ≡ 4 * seg.header.doff + length (Buffer.str seg.payload) =
      ap length bytes ∙ length-with_cksum seg1 (pseudo_cksum h) w.carried in
    let whole : IsWhole d = record { header_fits = v; total = total_length a seg1 _ w.fits size } in
    (
      d,
      rw written,
      whole,
      refl,
      λ d' c one header same.
          let left : Buffer.str c ≡ with_cksum seg1 (right_cksum seg1 (pseudo_cksum h)) =
            sym (concatenate_one c) ∙ ap BufferList.concatenate (sym one) ∙ same ∙ bytes in
          let (r, read, r_header, r_payload) =
            parse_carried TcpSegment.new seg1 (pseudo_cksum h) c w.carried bound left in
          let sum : pseudo_cksum d'.header ≡ pseudo_cksum h =
            ap pseudo_cksum header ∙ cksum_apart h (Ip.right_cksum h) in
          (
            r,
            unwrap_ok through_text b d' c r (some r) b
                (ap (is_related b) header ∙ related a b seg1 (Ip.right_cksum h) e f) one
                (ap (λ n. Segment.parse TcpSegment.new c n) sum ∙ read)
                (passes through_text a b d'.header seg r _ e f l r_header),
            r_header,
            r_payload,
          ),
    )

-- A segment that one adapter wraps in a datagram, and that is written and read again, is unwrapped by
-- the adapter at the other end: with the ports of the connection, the checksum filled in, and all else
-- as it was.
pub segment_carried :
    (through_text : ℕ → ℕ) (a b : FdAdapterBase) (seg : TcpSegment)
    → IsSendable a seg
    → b.cfg.destination ≡ a.cfg.source
    → b.cfg.source ≡ a.cfg.destination
    → b.listen ≡ false
    → (d d' : Ipv4Datagram) × (out : BufferList.BufferList) × (r : TcpSegment) × (wrap_tcp_in_ip a
          seg
        ≡ ok (d, set_ports a seg))
      × (Ipv4Datagram.serialize d ≡ ok out)
      × (Ipv4Datagram.parse default_datagram (Buffer.of_string (BufferList.concatenate out))
          ≡ ok (no_error, d'))
      × (unwrap_tcp_in_ip through_text b d' ≡ ok (some r, b))
      × (r.header ≡ record (seg.header) {
        sport = a.cfg.source.port;
        dport = a.cfg.destination.port;
        cksum = right_cksum (set_ports a seg) (pseudo_cksum d.header);
      })
      × (Buffer.str r.payload ≡ Buffer.str seg.payload)
segment_carried through_text a b seg w e f l =
    let (d, wrapped, whole, _, arrives) = wrapped-IsWhole through_text a b seg w e f l in
    let (out, d', sent, arrived, header, same) = datagram_round_trip default_datagram d whole in
    let (c, one) = one_buffer default_datagram d' _ arrived in
    let (r, unwrapped, r_header, r_payload) = arrives d' c one header same in
    (d, d', out, r, wrapped, sent, arrived, unwrapped, r_header, r_payload)
