-- ===== src/TunTapAdapter/Stack.antt =====
-- A segment through the whole stack, from one host to another on the same wire.
use cs144_sponge.Base.{
  ℕ, ◌≡◌, refl, ap, sym, subst, ◌∙◌, true, false, none, some, List, [], ◌∷◌, ◌++◌, ◌==◌,
  if◌then◌else◌, ok, arith, All, IsU32,
}
use cs144_sponge.Buffer
use cs144_sponge.Buffer.{Buffer}
use cs144_sponge.BufferList
use cs144_sponge.TcpSegment.{TcpSegment}
use cs144_sponge.TcpSegment.Wire.RoundTrip.{right_cksum}
use cs144_sponge.EthernetHeader.{EthernetAddress, broadcast, type_arp, type_ipv4}
use cs144_sponge.EthernetHeader.RoundTrip.{AddressFits}
use cs144_sponge.EthernetFrame.{EthernetFrame}
use cs144_sponge.ArpMessage.{ArpMessage}
use cs144_sponge.ArpMessage.RoundTrip as Arp
use cs144_sponge.Ipv4Header.{pseudo_cksum}
use cs144_sponge.Ipv4Datagram.RoundTrip.{IsWhole}
use cs144_sponge.FdAdapter.{FdAdapterBase, set_ports}
use cs144_sponge.TcpOverIp.{header_for}
use cs144_sponge.TcpOverIp.Carried.{IsSendable, wrapped-IsWhole}
use cs144_sponge.NetworkInterface
use cs144_sponge.NetworkInterface.{
  NetworkInterface, queue_of, frame_to, request_for, reply_from, same_address, send_datagram,
  recv_frame, recv_ipv4,
}
use cs144_sponge.NetworkInterface.Flushed.{waiting}
use cs144_sponge.NetworkInterface.Delivery.{accepted, frames_for, wire}
use cs144_sponge.NetworkInterface.Exchange.{
  same_address_refl, or_true, request-Fits, reply-Fits, parsed_payload, asked_state,
}
use cs144_sponge.TunTapAdapter.{
  EthernetAdapter, frame_bytes, new, write_frames, send_pending, take_datagram, read, write,
}
use cs144_sponge.TunTapAdapter.Frames.{
  host, read_arp, read_ipv4, header-Fits, broadcast-Fits, write_asks,
}

-- Two hosts on one wire, each with a new adapter, of which neither knows the other's Ethernet address.
-- The first host writes a segment: its adapter broadcasts a request for the next hop. What each adapter
-- then puts on the wire is given to the other: the second answers, the first sends the frame that
-- carries the segment's datagram, and the second reads the segment, with the ports of the connection,
-- the checksum filled in and the same payload. The segment fits in a datagram, the addresses in their
-- fields, and the second host's connection is the first one's from the other end.
pub segment_over_ethernet :
    (t : ℕ → ℕ) (a b : FdAdapterBase) (a_mac b_mac : EthernetAddress) (a_ip b_ip b_next : ℕ)
    (seg : TcpSegment)
    → IsSendable a seg
    → b.cfg.destination ≡ a.cfg.source
    → b.cfg.source ≡ a.cfg.destination
    → b.listen ≡ false
    → AddressFits a_mac
    → AddressFits b_mac
    → IsU32 a_ip
    → IsU32 b_ip
    → (a1 a2 b1 : EthernetAdapter) × (request reply carrier : List ℕ) × (r : TcpSegment) × (write
          seg
          (host a a_mac a_ip b_ip)
        ≡ ok (set_ports a seg, a1))
      × (a1.tap ≡ (host a a_mac a_ip b_ip).tap ++ (request ∷ []))
      × (read t request (host b b_mac b_ip b_next) ≡ ok (none, b1))
      × (b1.tap ≡ (host b b_mac b_ip b_next).tap ++ (reply ∷ []))
      × (read t reply a1 ≡ ok (none, a2))
      × (a2.tap ≡ a1.tap ++ (carrier ∷ []))
      × (read t carrier b1 ≡ ok (some r, b1))
      × (r.header ≡ record (seg.header) {
        sport = a.cfg.source.port;
        dport = a.cfg.destination.port;
        cksum = right_cksum (set_ports a seg) (pseudo_cksum (header_for a (set_ports a seg)));
      })
      × (Buffer.str r.payload ≡ Buffer.str seg.payload)
unfolding new NetworkInterface.new send_pending write_frames take_datagram
segment_over_ethernet t a b a_mac b_mac a_ip b_ip b_next seg w e f l fa fb ia ib =
    let a0 : EthernetAdapter = host a a_mac a_ip b_ip in
    let b0 : EthernetAdapter = host b b_mac b_ip b_next in
    let (d, wrapped, whole, addressed, arrives) = wrapped-IsWhole t a b seg w e f l in
    let c1 : ArpMessage = request_for a0.interface b_ip in
    let v1 : Arp.Fits c1 = request-Fits a_mac a_ip b_ip fa ia ib in
    let c2 : ArpMessage = reply_from b_mac b_ip c1 in
    let v2 : Arp.Fits c2 = reply-Fits b_mac b_ip c1 fb ib v1 in
    let request : EthernetFrame =
      frame_to a0.interface broadcast type_arp (BufferList.of_string (Arp.bytes c1)) in
    let reply : EthernetFrame =
      frame_to b0.interface a_mac type_arp (BufferList.of_string (Arp.bytes c2)) in
    let carrier : EthernetFrame = frame_to a0.interface b_mac type_ipv4 (wire d) in
    let a1 : EthernetAdapter =
      send_pending (record a0 { interface = asked_state a_mac a_ip b_ip d }) in
    let own : (b_ip == b_ip) ≡ true = ground arith in
    let (m, eb, mb, fb1) =
      read_arp t request c1 b0
        (header-Fits broadcast a_mac type_arp broadcast-Fits fa (omega arith)) refl refl
        (parsed_payload c1 v1) tt in
    let b1 : EthernetAdapter = send_pending (record b0 { interface = m }) in
    let replied : m.frames_out ≡ reply ∷ [] = fb1 ∙ ap (λ x. if x then reply ∷ [] else []) own in
    let there : waiting a1.interface b_ip ≡ d ∷ [] =
      ap (λ x. queue_of (if x then some (d ∷ []) else none)) own in
    let (k, ea, _, fa2) =
      read_arp t reply c2 a1 (header-Fits a_mac b_mac type_arp fa fb (omega arith)) refl
        (or_true (same_address a_mac broadcast) (same_address_refl a_mac)) (parsed_payload c2 v2)
        (subst (All IsWhole) (sym there) (whole, tt)) in
    let a2 : EthernetAdapter = send_pending (record a1 { interface = k }) in
    let sent : k.frames_out ≡ carrier ∷ [] = fa2 ∙ ap (λ q. frames_for a_mac b_mac q ++ []) there in
    let own_frame : accepted b1.interface carrier ≡ true =
      or_true (same_address b_mac broadcast)
        (ap (λ x. same_address b_mac x) mb ∙ same_address_refl b_mac) in
    let (d', c, one, header, same, eb2) =
      read_ipv4 t carrier d b1 (header-Fits b_mac a_mac type_ipv4 fb fa (omega arith)) refl
        own_frame whole refl in
    let (r, unwrapped, r_header, r_payload) = arrives d' c one header same in
    (
      a1,
      a2,
      b1,
      frame_bytes request,
      frame_bytes reply,
      frame_bytes carrier,
      r,
      write_asks a a_mac a_ip b_ip seg d wrapped v1,
      refl,
      eb,
      ap (λ q. write_frames q b0.tap) replied,
      ea,
      ap (λ q. write_frames q a1.tap) sent,
      eb2 ∙ rw unwrapped,
      r_header
          ∙ ap
              (λ h. record (seg.header) {
                sport = a.cfg.source.port;
                dport = a.cfg.destination.port;
                cksum = right_cksum (set_ports a seg) (pseudo_cksum h);
              })
              addressed,
      r_payload,
    )
