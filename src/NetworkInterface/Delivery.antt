-- ===== src/NetworkInterface/Delivery.antt =====
-- What the arrival of an ARP message brings about.

use cs144_sponge.Base.{
  ℕ, ◌*◌, ◌≡◌, refl, ap, ap₂, not, sym, subst, ◌∙◌, inl, inr, Bool, Bool-cases, true, false, ◌&&◌,
  ◌||◌, Option-cases, none, some, List, [], ◌∷◌, ◌++◌, ◌==◌, if◌then◌else◌, ok, err, ◌>>=◌, find,
  insert, find-insert, arith, All, append_assoc, append-nil,
}
use cs144_sponge.EthernetHeader.{EthernetAddress, broadcast, type_arp, type_ipv4}
use cs144_sponge.EthernetFrame.{EthernetFrame}
use cs144_sponge.ArpMessage
use cs144_sponge.ArpMessage.{ArpMessage, default_message, supported, opcode_request, opcode_reply}
use cs144_sponge.ArpMessage.RoundTrip.{bytes, serialize-bytes, parse-supported}
use cs144_sponge.Buffer
use cs144_sponge.BufferList
use cs144_sponge.BufferList.{BufferList}
use cs144_sponge.NetParser.{no_error}
use cs144_sponge.Ipv4Datagram
use cs144_sponge.Ipv4Datagram.{Ipv4Datagram, default_datagram}
use cs144_sponge.Ipv4Datagram.RoundTrip.{IsWhole, datagram_round_trip}
use cs144_sponge.NetworkInterface.{
  NetworkInterface, frame_to, push, reply_from, same_address, queue_of, send_ipv4, flush, learn,
  answer, take_message, recv_arp, recv_frame,
}
use cs144_sponge.NetworkInterface.Flushed.{waiting}

-- The bytes of a datagram, where it can be written.
abbrev pub wire : Ipv4Datagram → BufferList
wire d = elim (Ipv4Datagram.serialize d) [ ok out ↦ out | err why ↦ [] ]

pub wire_whole : (d : Ipv4Datagram) → IsWhole d → Ipv4Datagram.serialize d ≡ ok (wire d)
wire_whole d w =
    let (out, d', e, _, _, _) = datagram_round_trip default_datagram d w in ground (arith, e)

-- The frames that carry datagrams, in their order.
abbrev pub frames_for : EthernetAddress → EthernetAddress → List Ipv4Datagram → List EthernetFrame
frames_for src dst [] = []
frames_for src dst (d ∷ queue) =
    record { header = record { dst = dst; src = src; ether_type = type_ipv4 }; payload = wire d }
    ∷ frames_for src dst queue

abbrev with_frames : NetworkInterface → List EthernetFrame → NetworkInterface
with_frames n frames = record n { frames_out = n.frames_out ++ frames }

flush_all :
    (n : NetworkInterface) (mac : EthernetAddress) (queue : List Ipv4Datagram)
    → All IsWhole queue
    → flush n mac queue ≡ ok (with_frames n (frames_for n.ethernet_address mac queue))
unfolding flush send_ipv4
flush_all n mac [] w = ap (λ fs. ok (record n { frames_out = fs })) (sym (append-nil n.frames_out))
flush_all n mac (d ∷ queue) (whole, w) =
    let frame : EthernetFrame = frame_to n mac type_ipv4 (wire d) in
    let first : send_ipv4 n mac d ≡ ok (push frame n) = rw (wire_whole d whole) in
    let frames : List EthernetFrame = frames_for n.ethernet_address mac queue in
    ap (λ r. r >>= λ m. flush m mac queue) first
    ∙ flush_all (push frame n) mac queue w
    ∙ ap (λ fs. ok (record n { frames_out = fs })) (append_assoc n.frames_out (frame ∷ []) frames)

-- The reply, where the message is a request for the address of this interface.
abbrev pub replies : EthernetAddress → ℕ → ArpMessage → List EthernetFrame
replies mac own c =
    if c.opcode == opcode_request && c.target_ip_address == own
    then (record {
      header = record { dst = c.sender_ethernet_address; src = mac; ether_type = type_arp };
      payload = BufferList.of_string (bytes (reply_from mac own c));
    }
        ∷ [])
    else []

answer_all :
    (n : NetworkInterface) (c : ArpMessage)
    → supported c ≡ true
    → answer n c ≡ ok (with_frames n (replies n.ethernet_address n.ip_address c))
unfolding answer
answer_all n c s =
    let written : ArpMessage.serialize (reply_from n.ethernet_address n.ip_address c)
        ≡ ok (bytes (reply_from n.ethernet_address n.ip_address c)) =
      serialize-bytes (reply_from n.ethernet_address n.ip_address c)
        (unfold supported in ground (arith, s)) in
    let none_more : n ≡ with_frames n [] =
      ap (λ fs. record n { frames_out = fs }) (sym (append-nil n.frames_out)) in
    elim (Bool-cases (c.opcode == opcode_request && c.target_ip_address == n.ip_address)) [
      | inl asks ↦ rw (asks, written)
      | inr silent ↦ rw silent (ap ok none_more)
    ]

learn_all :
    (n : NetworkInterface) (ip : ℕ) (mac : EthernetAddress) (j : ℕ)
    → All IsWhole (waiting n ip)
    → (m : NetworkInterface) × (learn n ip mac ≡ ok m)
      × (m.frames_out ≡ n.frames_out ++ frames_for n.ethernet_address mac (waiting n ip))
      × (m.ethernet_address ≡ n.ethernet_address)
      × (m.ip_address ≡ n.ip_address)
      × (m.cache_map ≡ insert ip (mac, 30 * 1000) n.cache_map)
      × (waiting m j ≡ (if j == ip then [] else waiting n j))
unfolding learn
learn_all n ip mac j w =
    let known : NetworkInterface = record n {
      cache_map = insert ip (mac, 30 * 1000) n.cache_map;
    } in
    elim (Option-cases (find ip n.datagram_queue)) [
      | inl absent ↦
          let idle : waiting n ip ≡ [] = ap queue_of absent in
          (
            known,
            ground (arith, absent),
            sym (append-nil n.frames_out)
                ∙ ap (λ q. n.frames_out ++ frames_for n.ethernet_address mac q) (sym idle),
            refl,
            refl,
            refl,
            ground (arith, absent),
          )
      | inr (queue, there) ↦
          let same : waiting n ip ≡ queue = ap queue_of there in
          let m : NetworkInterface = with_frames known (frames_for n.ethernet_address mac queue) in
          (
            record m { datagram_queue = insert ip [] n.datagram_queue },
            ground (arith, there, flush_all known mac queue (subst (All IsWhole) same w)),
            ap (λ q. n.frames_out ++ frames_for n.ethernet_address mac q) (sym same),
            refl,
            refl,
            refl,
            ground (arith, find-insert j ip [] n.datagram_queue),
          )
    ]

-- Is the frame for this interface?
abbrev pub accepted : NetworkInterface → EthernetFrame → Bool
accepted n f = same_address f.header.dst broadcast || same_address f.header.dst n.ethernet_address

pub neither : (a b : Bool) → (a || b) ≡ true → (not a && not b) ≡ false
neither a b h = ground arith

recv_frame-arp :
    (n : NetworkInterface) (f : EthernetFrame)
    → accepted n f ≡ true
    → f.header.ether_type ≡ type_arp
    → recv_frame n f ≡ recv_arp n f.payload
unfolding recv_frame
recv_frame-arp n f a t =
    let ignored : (not (same_address f.header.dst broadcast)
          && not (same_address f.header.dst n.ethernet_address))
        ≡ false =
      neither _ _ a in
    rw (ignored, t)

-- An ARP message from an address arrives, in a frame that the interface accepts and without a parse
-- error, and all the datagrams that wait for that address are whole: their fields fit, and their length
-- fields match their payloads. Then no exception is thrown, and every datagram that waits for the
-- address is sent to the sender, in the order in which they were queued; a request for this interface's
-- own address is then answered. The address is known for 30 seconds and nothing waits for it. Other
-- addresses are as they were, and so are the interface's own.
pub waiting_delivered :
    (n : NetworkInterface) (f : EthernetFrame) (c : ArpMessage) (j : ℕ)
    → accepted n f ≡ true
    → f.header.ether_type ≡ type_arp
    → ArpMessage.parse default_message (Buffer.of_string (BufferList.concatenate f.payload))
      ≡ ok (no_error, c)
    → All IsWhole (waiting n c.sender_ip_address)
    → (m : NetworkInterface) × (recv_frame n f ≡ ok (none, m))
      × (m.ethernet_address ≡ n.ethernet_address)
      × (m.ip_address ≡ n.ip_address)
      × (m.frames_out
          ≡ (n.frames_out
              ++ frames_for n.ethernet_address c.sender_ethernet_address
                  (waiting n c.sender_ip_address))
            ++ replies n.ethernet_address n.ip_address c)
      × (find j m.cache_map ≡ (
          if j == c.sender_ip_address
          then some (c.sender_ethernet_address, 30 * 1000)
          else find j n.cache_map))
      × (waiting m j ≡ (if j == c.sender_ip_address then [] else waiting n j))
unfolding recv_arp take_message
waiting_delivered n f c j a t parsed w =
    let ip : ℕ = c.sender_ip_address in
    let mac : EthernetAddress = c.sender_ethernet_address in
    let (k, learnt, frames, same_mac, same_ip, cache, left) = learn_all n ip mac j w in
    let (s, _) = parse-supported default_message c _ parsed in
    let same_replies : replies k.ethernet_address k.ip_address c
        ≡ replies n.ethernet_address n.ip_address c =
      ap₂ (λ x y. replies x y c) same_mac same_ip in
    (
      with_frames k (replies k.ethernet_address k.ip_address c),
      recv_frame-arp n f a t ∙ rw (parsed, learnt, answer_all k c s),
      same_mac,
      same_ip,
      ap₂ (λ x y. x ++ y) frames same_replies,
      ap (find j) cache ∙ find-insert j ip (mac, 30 * 1000) n.cache_map,
      left,
    )
