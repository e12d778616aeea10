-- ===== src/NetworkInterface.antt =====
-- libsponge/network_interface.{hh,cc}: from IPv4 datagrams to Ethernet frames and back, with ARP.
-- An `Address` is the number that `ipv4_numeric` gives for it: nothing else of it is used but in the
-- line that the constructor prints.
pub mod Flushed
pub mod Ageing
pub mod Run
pub mod Requests
pub mod Delivery
pub mod Exchange
pub mod Total
mod Examples
use cs144_sponge.Base.{
  ℕ, ◌-◌, ◌*◌, Bool, ◌&&◌, not, Option, none, some, List, [], ◌∷◌, ◌++◌, ltb, ◌==◌, if◌then◌else◌,
  Result, ok, ◌>>=◌, Map, find, insert,
}
use cs144_sponge.Buffer
use cs144_sponge.BufferList
use cs144_sponge.BufferList.{BufferList}
use cs144_sponge.NetParser.{ParseResult, is_error}
use cs144_sponge.EthernetHeader.{EthernetAddress, EthernetHeader, broadcast, type_ipv4, type_arp}
use cs144_sponge.EthernetFrame.{EthernetFrame}
use cs144_sponge.ArpMessage
use cs144_sponge.ArpMessage.{ArpMessage, default_message, opcode_request, opcode_reply}
use cs144_sponge.Ipv4Datagram
use cs144_sponge.Ipv4Datagram.{Ipv4Datagram, default_datagram}

pub record NetworkInterface : Type 0 where
  pub ethernet_address : EthernetAddress
  pub ip_address : ℕ
  pub frames_out : List EthernetFrame
  pub cache_map : Map (EthernetAddress × ℕ)
  pub arp_requests : Map ℕ
  pub datagram_queue : Map (List Ipv4Datagram)

unfoldable pub new : EthernetAddress → ℕ → NetworkInterface
new ethernet_address ip_address = record {
  ethernet_address = ethernet_address;
  ip_address = ip_address;
  frames_out = [];
  cache_map = [];
  arp_requests = [];
  datagram_queue = [];
}

-- The frame that is set up and pushed to `_frames_out`, in each of the four places.
abbrev pub frame_to : NetworkInterface → EthernetAddress → ℕ → BufferList → EthernetFrame
frame_to n dst ether_type payload = record {
  header = record { dst = dst; src = n.ethernet_address; ether_type = ether_type };
  payload = payload;
}

abbrev pub push : EthernetFrame → NetworkInterface → NetworkInterface
push frame n = record n { frames_out = n.frames_out ++ (frame ∷ []) }

-- A datagram to an address that is known.
unfoldable pub send_ipv4 :
    NetworkInterface → EthernetAddress → Ipv4Datagram → Result NetworkInterface
send_ipv4 n dst dgram =
    Ipv4Datagram.serialize dgram >>= λ payload. ok (push (frame_to n dst type_ipv4 payload) n)

abbrev pub request_for : NetworkInterface → ℕ → ArpMessage
request_for n next_hop_ip = record default_message {
  opcode = opcode_request;
  sender_ethernet_address = n.ethernet_address;
  sender_ip_address = n.ip_address;
  target_ip_address = next_hop_ip;
}

-- The request is broadcast, and not repeated for five seconds.
unfoldable pub broadcast_request : NetworkInterface → ℕ → Result NetworkInterface
broadcast_request n next_hop_ip = ArpMessage.serialize (request_for n next_hop_ip) >>= λ s.
    ok (record (push (frame_to n broadcast type_arp (BufferList.of_string s)) n) {
      arp_requests = insert next_hop_ip (5 * 1000) n.arp_requests;
    })

abbrev pub queue_of : Option (List Ipv4Datagram) → List Ipv4Datagram
queue_of none = []
queue_of (some q) = q

-- `operator[]` enters an empty queue where there is none.
abbrev pub enqueue : Ipv4Datagram → ℕ → NetworkInterface → NetworkInterface
enqueue dgram ip n = record n {
  datagram_queue = insert ip (queue_of (find ip n.datagram_queue) ++ (dgram ∷ [])) n.datagram_queue;
}

unfoldable pub send_datagram : NetworkInterface → Ipv4Datagram → ℕ → Result NetworkInterface
send_datagram n dgram next_hop_ip = elim (find next_hop_ip n.cache_map) [
  | some (mac, left) ↦ send_ipv4 n mac dgram
  | none ↦ elim (find next_hop_ip n.arp_requests) [
    | some left ↦ ok (enqueue dgram next_hop_ip n)
    | none ↦ broadcast_request n next_hop_ip >>= λ m. ok (enqueue dgram next_hop_ip m)
  ]
]

-- The loop that empties a queue, in the order of the queue.
unfoldable pub flush :
    NetworkInterface → EthernetAddress → List Ipv4Datagram → Result NetworkInterface
flush n dst [] = ok n
flush n dst (dgram ∷ queue) = send_ipv4 n dst dgram >>= λ m. flush m dst queue

-- The sender's address is kept for thirty seconds, and the datagrams that wait for it are sent.
unfoldable pub learn : NetworkInterface → ℕ → EthernetAddress → Result NetworkInterface
learn n ip mac =
    let known : NetworkInterface = record n {
      cache_map = insert ip (mac, 30 * 1000) n.cache_map;
    } in
    elim (find ip n.datagram_queue) [
      | none ↦ ok known
      | some queue ↦ flush known mac queue >>= λ m.
          ok (record m { datagram_queue = insert ip [] m.datagram_queue })
    ]

abbrev pub reply_from : EthernetAddress → ℕ → ArpMessage → ArpMessage
reply_from ethernet_address ip_address content = record content {
  opcode = opcode_reply;
  target_ethernet_address = content.sender_ethernet_address;
  target_ip_address = content.sender_ip_address;
  sender_ethernet_address = ethernet_address;
  sender_ip_address = ip_address;
}

unfoldable pub answer : NetworkInterface → ArpMessage → Result NetworkInterface
answer n content =
    if content.opcode == opcode_request && content.target_ip_address == n.ip_address
    then (ArpMessage.serialize (reply_from n.ethernet_address n.ip_address content) >>= λ s.
        ok (push (frame_to n content.sender_ethernet_address type_arp (BufferList.of_string s)) n))
    else ok n

abbrev pub same_address : EthernetAddress → EthernetAddress → Bool
same_address a b =
    a.b0 == b.b0 && a.b1 == b.b1 && a.b2 == b.b2 && a.b3 == b.b3 && a.b4 == b.b4 && a.b5 == b.b5

unfoldable pub recv_ipv4 :
    NetworkInterface → BufferList → Result (Option Ipv4Datagram × NetworkInterface)
recv_ipv4 n payload =
    Ipv4Datagram.parse default_datagram (Buffer.of_string (BufferList.concatenate payload)) >>= λ r.
    ok (if is_error r.0 then none else some r.1, n)

-- A message that was read without an error.
unfoldable pub take_message :
    NetworkInterface → ArpMessage → Result (Option Ipv4Datagram × NetworkInterface)
take_message n content = learn n content.sender_ip_address content.sender_ethernet_address >>= λ m.
    answer m content >>= λ m'. ok (none, m')

unfoldable pub recv_arp :
    NetworkInterface → BufferList → Result (Option Ipv4Datagram × NetworkInterface)
recv_arp n payload =
    ArpMessage.parse default_message (Buffer.of_string (BufferList.concatenate payload)) >>= λ r.
    if is_error r.0 then ok (none, n) else take_message n r.1

unfoldable pub recv_frame :
    NetworkInterface → EthernetFrame → Result (Option Ipv4Datagram × NetworkInterface)
recv_frame n frame =
    if not (same_address frame.header.dst broadcast)
      && not (same_address frame.header.dst n.ethernet_address)
    then ok (none, n)
    else if frame.header.ether_type == type_ipv4
    then recv_ipv4 n frame.payload
    else if frame.header.ether_type == type_arp
    then recv_arp n frame.payload
    else ok (none, n)

-- The loop of `tick` over the requests.
unfoldable pub age_requests : ℕ → Map ℕ → Map ℕ
age_requests ms [] = []
age_requests ms ((ip, left) ∷ m) =
    let rest = age_requests ms m in if ltb ms left then (ip, left - ms) ∷ rest else rest

-- The loop of `tick` over the addresses.
unfoldable pub age_cache : ℕ → Map (EthernetAddress × ℕ) → Map (EthernetAddress × ℕ)
age_cache ms [] = []
age_cache ms ((ip, (mac, left)) ∷ m) =
    let rest = age_cache ms m in if ltb ms left then (ip, (mac, left - ms)) ∷ rest else rest

unfoldable pub tick : NetworkInterface → ℕ → NetworkInterface
tick n ms = record n {
  arp_requests = age_requests ms n.arp_requests;
  cache_map = age_cache ms n.cache_map;
}
