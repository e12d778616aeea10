-- ===== src/NetworkInterface/Exchange.antt =====
-- Two interfaces find each other and a datagram arrives.
use cs144_sponge.Base.{
  ℕ, ◌*◌, ◌≡◌, refl, ap, sym, subst, ◌∙◌, Bool, true, false, ◌&&◌, ◌||◌, not, none, some, [], ◌∷◌,
  ◌++◌, ◌==◌, if◌then◌else◌, ok, arith, All, IsU32,
}
use cs144_sponge.EthernetHeader.{EthernetAddress, EthernetHeader, broadcast, type_arp, type_ipv4}
use cs144_sponge.EthernetHeader.RoundTrip.{AddressFits}
use cs144_sponge.EthernetFrame.{EthernetFrame}
use cs144_sponge.ArpMessage
use cs144_sponge.ArpMessage.{ArpMessage, default_message, supported, opcode_request, opcode_reply}
use cs144_sponge.ArpMessage.RoundTrip.{Fits, bytes, serialize-bytes, parse-bytes}
use cs144_sponge.Buffer
use cs144_sponge.BufferList
use cs144_sponge.BufferList.Laws.{concatenate-of_string}
use cs144_sponge.NetParser.{no_error}
use cs144_sponge.Ipv4Header.RoundTrip.{right_cksum}
use cs144_sponge.Ipv4Datagram.{Ipv4Datagram, default_datagram}
use cs144_sponge.Ipv4Datagram.RoundTrip.{IsWhole, datagram_round_trip}
use cs144_sponge.NetworkInterface.{
  NetworkInterface, new, queue_of, frame_to, push, enqueue, request_for, reply_from, same_address,
  send_datagram, broadcast_request, recv_ipv4, recv_frame,
}
use cs144_sponge.NetworkInterface.Flushed.{waiting}
use cs144_sponge.NetworkInterface.Delivery.{neither, frames_for, wire, waiting_delivered}

pub same_address_refl : (a : EthernetAddress) → same_address a a ≡ true
same_address_refl a = ground arith

pub or_true : (a : Bool) {b : Bool} → b ≡ true → (a || b) ≡ true
or_true true e = refl
or_true false e = e

-- A datagram in a frame for this interface is returned, with the checksum that was filled in.
recv_carried :
    (n : NetworkInterface) (src : EthernetAddress) (d : Ipv4Datagram)
    → IsWhole d
    → (d' : Ipv4Datagram) × (recv_frame n (record {
      header = record { dst = n.ethernet_address; src = src; ether_type = type_ipv4 };
      payload = wire d;
    })
        ≡ ok (some d', n))
      × (d'.header ≡ record (d.header) { cksum = right_cksum d.header })
      × (BufferList.concatenate d'.payload ≡ BufferList.concatenate d.payload)
unfolding recv_frame recv_ipv4
recv_carried n src d w =
    let (out, d', e, parsed, header, payload) = datagram_round_trip default_datagram d w in
    let same : wire d ≡ out = ground (arith, e) in
    let h : EthernetHeader = record {
      dst = n.ethernet_address;
      src = src;
      ether_type = type_ipv4;
    } in
    let ignored : (not (same_address h.dst broadcast)
          && not (same_address h.dst n.ethernet_address))
        ≡ false =
      neither _ _ (or_true (same_address h.dst broadcast) (same_address_refl n.ethernet_address)) in
    (
      d',
      ap (λ p. recv_frame n (record { header = h; payload = p })) same ∙ rw (ignored, parsed),
      header,
      payload,
    )

pub request-Fits :
    (mac : EthernetAddress) (own ip : ℕ)
    → AddressFits mac
    → IsU32 own
    → IsU32 ip
    → Fits (request_for (new mac own) ip)
unfolding new supported
request-Fits mac own ip m o i = record {
  kind = refl;
  hardware_type_fits = omega arith;
  protocol_type_fits = omega arith;
  hardware_address_size_fits = omega arith;
  protocol_address_size_fits = omega arith;
  opcode_fits = omega arith;
  sender_ethernet_fits = m;
  sender_ip_fits = o;
  target_ethernet_fits = record {
    b0_fits = omega arith;
    b1_fits = omega arith;
    b2_fits = omega arith;
    b3_fits = omega arith;
    b4_fits = omega arith;
    b5_fits = omega arith;
  };
  target_ip_fits = i;
}

pub reply-Fits :
    (mac : EthernetAddress) (own : ℕ) (c : ArpMessage)
    → AddressFits mac
    → IsU32 own
    → Fits c
    → Fits (reply_from mac own c)
unfolding supported
reply-Fits mac own c m o v = record {
  kind = ground (arith, v.kind);
  hardware_type_fits = v.hardware_type_fits;
  protocol_type_fits = v.protocol_type_fits;
  hardware_address_size_fits = v.hardware_address_size_fits;
  protocol_address_size_fits = v.protocol_address_size_fits;
  opcode_fits = omega arith;
  sender_ethernet_fits = m;
  sender_ip_fits = o;
  target_ethernet_fits = v.sender_ethernet_fits;
  target_ip_fits = v.sender_ip_fits;
}

pub parsed_payload :
    (c : ArpMessage)
    → Fits c
    → ArpMessage.parse default_message
        (Buffer.of_string (BufferList.concatenate (BufferList.of_string (bytes c))))
      ≡ ok (no_error, c)
parsed_payload c v =
    ap (λ s. ArpMessage.parse default_message (Buffer.of_string s))
      (concatenate-of_string (bytes c))
    ∙ parse-bytes default_message c v

-- A new interface that has been given a datagram for an unknown address.
abbrev pub asked_state : EthernetAddress → ℕ → ℕ → Ipv4Datagram → NetworkInterface
asked_state mac own ip d =
    let n : NetworkInterface = new mac own in
    let request : EthernetFrame =
      frame_to n broadcast type_arp (BufferList.of_string (bytes (request_for n ip))) in
    enqueue d ip (record (push request n) { arp_requests = (ip, 5 * 1000) ∷ [] })

pub asks :
    (mac : EthernetAddress) (own ip : ℕ) (d : Ipv4Datagram)
    → Fits (request_for (new mac own) ip)
    → send_datagram (new mac own) d ip ≡ ok (asked_state mac own ip d)
unfolding send_datagram broadcast_request new
asks mac own ip d v = rw (serialize-bytes (request_for (new mac own) ip) v.kind)

-- A new interface is given a datagram for the address of another new interface; the datagram is whole:
-- its fields fit, and its length fields match its payload. The bytes of the Ethernet addresses and the
-- IP addresses of the interfaces fit their fields. The interface broadcasts a request; the other answers
-- it; on the answer the first sends the datagram, and the other hands it up with its header's checksum
-- filled in and its payload unchanged.
pub resolve_and_deliver :
    (a_mac b_mac : EthernetAddress) (a_ip b_ip : ℕ) (d : Ipv4Datagram)
    → AddressFits a_mac
    → AddressFits b_mac
    → IsU32 a_ip
    → IsU32 b_ip
    → IsWhole d
    → (a1 a2 b1 : NetworkInterface) × (request reply carrier : EthernetFrame) × (d' : Ipv4Datagram)
      × (send_datagram (new a_mac a_ip) d b_ip ≡ ok a1)
      × (a1.frames_out ≡ request ∷ [])
      × (recv_frame (new b_mac b_ip) request ≡ ok (none, b1))
      × (b1.frames_out ≡ reply ∷ [])
      × (recv_frame a1 reply ≡ ok (none, a2))
      × (a2.frames_out ≡ request ∷ carrier ∷ [])
      × (recv_frame b1 carrier ≡ ok (some d', b1))
      × (d'.header ≡ record (d.header) { cksum = right_cksum d.header })
      × (BufferList.concatenate d'.payload ≡ BufferList.concatenate d.payload)
unfolding new
resolve_and_deliver a_mac b_mac a_ip b_ip d fa fb ia ib w =
    let a : NetworkInterface = new a_mac a_ip in
    let b : NetworkInterface = new b_mac b_ip in
    let c1 : ArpMessage = request_for a b_ip in
    let v1 : Fits c1 = request-Fits a_mac a_ip b_ip fa ia ib in
    let c2 : ArpMessage = reply_from b_mac b_ip c1 in
    let v2 : Fits c2 = reply-Fits b_mac b_ip c1 fb ib v1 in
    let request : EthernetFrame = frame_to a broadcast type_arp (BufferList.of_string (bytes c1)) in
    let reply : EthernetFrame = frame_to b a_mac type_arp (BufferList.of_string (bytes c2)) in
    let carrier : EthernetFrame = frame_to a b_mac type_ipv4 (wire d) in
    let a1 : NetworkInterface = asked_state a_mac a_ip b_ip d in
    let (b1, eb, mb, _, fb1, _, _) =
      waiting_delivered b request c1 0 refl refl (parsed_payload c1 v1) tt in
    let own : (b_ip == b_ip) ≡ true = ground arith in
    let there : waiting a1 b_ip ≡ d ∷ [] =
      ap (λ x. queue_of (if x then some (d ∷ []) else none)) own in
    let (a2, ea, _, _, fa2, _, _) =
      waiting_delivered a1 reply c2 0
        (or_true (same_address a_mac broadcast) (same_address_refl a_mac)) refl
        (parsed_payload c2 v2) (subst (All IsWhole) (sym there) (w, tt)) in
    let (d', ed, header, payload) = recv_carried b1 a_mac d w in
    (
      a1,
      a2,
      b1,
      request,
      reply,
      carrier,
      d',
      asks a_mac a_ip b_ip d v1,
      refl,
      eb,
      fb1 ∙ ap (λ x. if x then reply ∷ [] else []) own,
      ea,
      fa2 ∙ ap (λ q. request ∷ (frames_for a_mac b_mac q ++ [])) there,
      ap
            (λ x. recv_frame b1 (record {
              header = record { dst = x; src = a_mac; ether_type = type_ipv4 };
              payload = wire d;
            }))
            (sym mb)
          ∙ ed,
      header,
      payload,
    )
