-- ===== src/TunTapAdapter/Frames.antt =====
-- What an adapter does with a frame that is on the wire.
use cs144_sponge.Base.{
  ℕ, ◌≡◌, ap, ◌∙◌, true, false, ◌&&◌, ◌||◌, not, Option, none, some, [], ◌∷◌, ◌++◌, ◌==◌, ok, arith,
  All, IsU16,
}
use cs144_sponge.Buffer
use cs144_sponge.Buffer.{Buffer}
use cs144_sponge.BufferList
use cs144_sponge.NetParser.{no_error}
use cs144_sponge.TcpSegment.{TcpSegment}
use cs144_sponge.EthernetHeader.{EthernetAddress, EthernetHeader, broadcast, type_arp, type_ipv4}
use cs144_sponge.EthernetHeader.RoundTrip as Header
use cs144_sponge.EthernetHeader.RoundTrip.{AddressFits}
use cs144_sponge.EthernetFrame.{EthernetFrame}
use cs144_sponge.EthernetFrame.RoundTrip.{frame_round_trip}
use cs144_sponge.ArpMessage
use cs144_sponge.ArpMessage.{ArpMessage, default_message}
use cs144_sponge.ArpMessage.RoundTrip as Arp
use cs144_sponge.Ipv4Header.RoundTrip as Ip
use cs144_sponge.Ipv4Datagram.{Ipv4Datagram, default_datagram}
use cs144_sponge.Ipv4Datagram.RoundTrip.{IsWhole, datagram_round_trip}
use cs144_sponge.FdAdapter.{FdAdapterBase, set_ports}
use cs144_sponge.TcpOverIp.{wrap_tcp_in_ip}
use cs144_sponge.TcpOverIp.Carried.{one_buffer}
use cs144_sponge.NetworkInterface
use cs144_sponge.NetworkInterface.{
  NetworkInterface, queue_of, frame_to, request_for, reply_from, same_address, send_datagram,
  recv_frame, recv_ipv4,
}
use cs144_sponge.NetworkInterface.Flushed.{waiting}
use cs144_sponge.NetworkInterface.Delivery.{
  accepted, neither, frames_for, wire, replies, waiting_delivered,
}
use cs144_sponge.NetworkInterface.Exchange.{asked_state, asks}
use cs144_sponge.TunTapAdapter.{
  EthernetAdapter, default_frame, frame_bytes, new, send_pending, take_datagram, read, write,
}

-- The adapter of a host, with the addresses of its connection.
abbrev pub host : FdAdapterBase → EthernetAddress → ℕ → ℕ → EthernetAdapter
host base mac ip next_hop = record (new mac ip next_hop) { base = base }

-- A frame from the wire is what the interface gets.
read_frame :
    (t : ℕ → ℕ) (f : EthernetFrame) (a : EthernetAdapter)
    → Header.Fits f.header
    → (f' : EthernetFrame) × (f'.header ≡ f.header)
      × (BufferList.concatenate f'.payload ≡ BufferList.concatenate f.payload)
      × ((o : Option Ipv4Datagram) (n : NetworkInterface)
          → recv_frame a.interface f' ≡ ok (o, n)
          → read t (frame_bytes f) a
            ≡ take_datagram t o (send_pending (record a { interface = n })))
unfolding read
read_frame t f a v =
    let (f', e, h, p) = frame_round_trip default_frame f v in (f', h, p, λ o n r. rw (e, r))

accepted_same :
    (n : NetworkInterface) (f f' : EthernetFrame)
    → f'.header ≡ f.header
    → accepted n f ≡ true
    → accepted n f' ≡ true
accepted_same n f f' h a =
    ap
      (λ (x : EthernetHeader).
        same_address x.dst broadcast || same_address x.dst n.ethernet_address)
      h
    ∙ a

-- An ARP message in a frame, for an interface whose datagrams that wait are whole.
pub read_arp :
    (t : ℕ → ℕ) (f : EthernetFrame) (c : ArpMessage) (a : EthernetAdapter)
    → Header.Fits f.header
    → f.header.ether_type ≡ type_arp
    → accepted a.interface f ≡ true
    → ArpMessage.parse default_message (Buffer.of_string (BufferList.concatenate f.payload))
      ≡ ok (no_error, c)
    → All IsWhole (waiting a.interface c.sender_ip_address)
    → (m : NetworkInterface) × (read t (frame_bytes f) a
        ≡ ok (none, send_pending (record a { interface = m })))
      × (m.ethernet_address ≡ a.interface.ethernet_address)
      × (m.frames_out
          ≡ (a.interface.frames_out
              ++ frames_for a.interface.ethernet_address c.sender_ethernet_address
                  (waiting a.interface c.sender_ip_address))
            ++ replies a.interface.ethernet_address a.interface.ip_address c)
unfolding take_datagram
read_arp t f c a v ty acc parsed w =
    let (f', h, p, given) = read_frame t f a v in
    let (m, e, mac, _, frames, _, _) =
      waiting_delivered a.interface f' c 0 (accepted_same a.interface f f' h acc)
        (ap (λ (x : EthernetHeader). x.ether_type) h ∙ ty)
        (ap (λ s. ArpMessage.parse default_message (Buffer.of_string s)) p ∙ parsed) w in
    (m, given none m e, mac, frames)

recv_frame-ipv4 :
    (n : NetworkInterface) (f : EthernetFrame)
    → accepted n f ≡ true
    → f.header.ether_type ≡ type_ipv4
    → recv_frame n f ≡ recv_ipv4 n f.payload
unfolding recv_frame
recv_frame-ipv4 n f a t =
    let ignored : (not (same_address f.header.dst broadcast)
          && not (same_address f.header.dst n.ethernet_address))
        ≡ false =
      neither _ _ a in
    let kind : (f.header.ether_type == type_ipv4) ≡ true = ap (λ x. x == type_ipv4) t in
    rw (ignored, kind)

-- A datagram in a frame.
pub read_ipv4 :
    (t : ℕ → ℕ) (f : EthernetFrame) (d : Ipv4Datagram) (a : EthernetAdapter)
    → Header.Fits f.header
    → f.header.ether_type ≡ type_ipv4
    → accepted a.interface f ≡ true
    → IsWhole d
    → BufferList.concatenate f.payload ≡ BufferList.concatenate (wire d)
    → (d' : Ipv4Datagram) × (c : Buffer) × (d'.payload ≡ c ∷ [])
      × (d'.header ≡ record (d.header) { cksum = Ip.right_cksum d.header })
      × (BufferList.concatenate d'.payload ≡ BufferList.concatenate d.payload)
      × (read t (frame_bytes f) a ≡ take_datagram t (some d') (send_pending a))
unfolding recv_ipv4
read_ipv4 t f d a v ty acc w bytes =
    let (f', h, p, given) = read_frame t f a v in
    let (out, d', e, parsed, header, payload) = datagram_round_trip default_datagram d w in
    let (c, one) = one_buffer default_datagram d' _ parsed in
    let same : wire d ≡ out = ground (arith, e) in
    let left : BufferList.concatenate f'.payload ≡ BufferList.concatenate out =
      p ∙ bytes ∙ ap BufferList.concatenate same in
    let got : recv_frame a.interface f' ≡ ok (some d', a.interface) =
      recv_frame-ipv4 a.interface f' (accepted_same a.interface f f' h acc)
        (ap (λ (x : EthernetHeader). x.ether_type) h ∙ ty)
      ∙ rw (left, parsed) in
    (d', c, one, header, payload, given (some d') a.interface got)

pub header-Fits :
    (dst src : EthernetAddress) (ty : ℕ)
    → AddressFits dst
    → AddressFits src
    → IsU16 ty
    → Header.Fits (record { dst = dst; src = src; ether_type = ty })
header-Fits dst src ty d s t = record { dst_fits = d; src_fits = s; type_fits = t }

pub broadcast-Fits : AddressFits broadcast
broadcast-Fits = record {
  b0_fits = omega arith;
  b1_fits = omega arith;
  b2_fits = omega arith;
  b3_fits = omega arith;
  b4_fits = omega arith;
  b5_fits = omega arith;
}

-- The first write of an adapter asks for the next hop.
pub write_asks :
    (a : FdAdapterBase) (mac : EthernetAddress) (ip next : ℕ) (seg : TcpSegment) (d : Ipv4Datagram)
    → wrap_tcp_in_ip a seg ≡ ok (d, set_ports a seg)
    → Arp.Fits (request_for (NetworkInterface.new mac ip) next)
    → write seg (host a mac ip next)
      ≡ ok (
        set_ports a seg,
        send_pending (record (host a mac ip next) { interface = asked_state mac ip next d }),
      )
unfolding write new
write_asks a mac ip next seg d e v = rw (e, asks mac ip next d v)
