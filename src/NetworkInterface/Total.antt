-- ===== src/NetworkInterface/Total.antt =====
-- Sending a datagram that can be written throws no exception.
use cs144_sponge.Base.{ℕ, ◌≡◌, refl, inl, inr, Option-cases, ok, find, insert, ◌*◌, arith}
use cs144_sponge.EthernetHeader.{EthernetAddress, broadcast, type_ipv4, type_arp}
use cs144_sponge.BufferList
use cs144_sponge.ArpMessage.{supported}
use cs144_sponge.ArpMessage.RoundTrip.{bytes, serialize-bytes}
use cs144_sponge.Ipv4Datagram.{Ipv4Datagram}
use cs144_sponge.Ipv4Datagram.RoundTrip.{IsWhole}
use cs144_sponge.NetworkInterface.{
  NetworkInterface, push, frame_to, enqueue, request_for, send_ipv4, broadcast_request,
  send_datagram,
}
use cs144_sponge.NetworkInterface.Delivery.{wire, wire_whole}

send_ipv4_total :
    (n : NetworkInterface) (mac : EthernetAddress) (d : Ipv4Datagram)
    → IsWhole d
    → (m : NetworkInterface) × (send_ipv4 n mac d ≡ ok m)
unfolding send_ipv4
send_ipv4_total n mac d w = (push (frame_to n mac type_ipv4 (wire d)) n, rw (wire_whole d w))

broadcast_request_total :
    (n : NetworkInterface) (ip : ℕ) → (m : NetworkInterface) × (broadcast_request n ip ≡ ok m)
unfolding broadcast_request supported
broadcast_request_total n ip = (
  record (push (frame_to n broadcast type_arp (BufferList.of_string (bytes (request_for n ip))))
      n) { arp_requests = insert ip (5 * 1000) n.arp_requests },
  rw (serialize-bytes (request_for n ip) refl),
)

pub send_datagram_total :
    (n : NetworkInterface) (d : Ipv4Datagram) (ip : ℕ)
    → IsWhole d
    → (m : NetworkInterface) × (send_datagram n d ip ≡ ok m)
unfolding send_datagram
send_datagram_total n d ip w = elim (Option-cases (find ip n.cache_map)) [
  | inr ((mac, left), known) ↦
      let (m, e) = send_ipv4_total n mac d w in (m, ground (arith, known, e))
  | inl unknown ↦ elim (Option-cases (find ip n.arp_requests)) [
    | inr (left, asked) ↦ (enqueue d ip n, ground (arith, unknown, asked))
    | inl new ↦
        let (m, e) = broadcast_request_total n ip in
        (enqueue d ip m, ground (arith, unknown, new, e))
  ]
]
