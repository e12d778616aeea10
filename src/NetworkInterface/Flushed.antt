-- ===== src/NetworkInterface/Flushed.antt =====
-- No datagram waits for an address that is known.
use cs144_sponge.Base.{
  ℕ, ◌≡◌, refl, ap, sym, ◌∙◌, ◌⊎◌, inl, inr, Bool, true, false, Option, none, List, [], ◌∷◌,
  if◌then◌else◌, ok, Map, find, find-insert, arith, bind_ok, Bool-cases, subst,
}
use cs144_sponge.EthernetHeader.{EthernetAddress}
use cs144_sponge.EthernetFrame.{EthernetFrame}
use cs144_sponge.ArpMessage
use cs144_sponge.ArpMessage.{ArpMessage, default_message}
use cs144_sponge.Buffer
use cs144_sponge.BufferList
use cs144_sponge.BufferList.{BufferList}
use cs144_sponge.NetParser.{is_error}
use cs144_sponge.Ipv4Datagram.{Ipv4Datagram}
use cs144_sponge.NetworkInterface.{
  NetworkInterface, new, queue_of, send_ipv4, broadcast_request, send_datagram, flush, learn,
  answer, recv_ipv4, take_message, recv_arp, recv_frame, age_cache, tick,
}

-- The datagrams that wait for an address.
abbrev pub waiting : NetworkInterface → ℕ → List Ipv4Datagram
waiting n ip = queue_of (find ip n.datagram_queue)

abbrev pub Flushed : NetworkInterface → Type 0
Flushed n = (ip : ℕ) → (find ip n.cache_map ≡ none) ⊎ (waiting n ip ≡ [])

-- What only adds frames and requests.
pub record SameTables (n m : NetworkInterface) : Type 0 where
  pub same_cache : m.cache_map ≡ n.cache_map
  pub same_queue : m.datagram_queue ≡ n.datagram_queue
  pub same_ethernet : m.ethernet_address ≡ n.ethernet_address
  pub same_ip : m.ip_address ≡ n.ip_address

pub send_ipv4-SameTables :
    (n m : NetworkInterface) (mac : EthernetAddress) (d : Ipv4Datagram)
    → send_ipv4 n mac d ≡ ok m
    → SameTables n m
unfolding send_ipv4
send_ipv4-SameTables n m mac d e = ground arith

pub broadcast_request-SameTables :
    (n m : NetworkInterface) (ip : ℕ) → broadcast_request n ip ≡ ok m → SameTables n m
unfolding broadcast_request
broadcast_request-SameTables n m ip e = ground arith

pub answer-SameTables :
    (n m : NetworkInterface) (c : ArpMessage) → answer n c ≡ ok m → SameTables n m
unfolding answer
answer-SameTables n m c e = ground arith

pub flush-SameTables :
    (n m : NetworkInterface) (mac : EthernetAddress) (queue : List Ipv4Datagram)
    → flush n mac queue ≡ ok m
    → SameTables n m
unfolding flush
flush-SameTables n m mac [] e = ground arith
flush-SameTables n m mac (d ∷ queue) e =
    let (k, first, others) = bind_ok (send_ipv4 n mac d) (λ m. flush m mac queue) e in
    ground (arith, send_ipv4-SameTables n k mac d first, flush-SameTables k m mac queue others)

pub new-Flushed : (mac : EthernetAddress) (ip : ℕ) → Flushed (new mac ip)
unfolding new
new-Flushed mac ip j = inl refl

pub send_datagram-Flushed :
    (n m : NetworkInterface) (d : Ipv4Datagram) (ip : ℕ)
    → Flushed n
    → send_datagram n d ip ≡ ok m
    → Flushed m
unfolding send_datagram
send_datagram-Flushed n m d ip h e j =
    grind (arith, h j, h ip, send_ipv4-SameTables, broadcast_request-SameTables, find-insert)

pub learn-Flushed :
    (n m : NetworkInterface) (ip : ℕ) (mac : EthernetAddress)
    → Flushed n
    → learn n ip mac ≡ ok m
    → Flushed m
unfolding learn
learn-Flushed n m ip mac h e j = grind (arith, h j, h ip, flush-SameTables, find-insert)

find-age_cache :
    (ms ip : ℕ) (m : Map (EthernetAddress × ℕ)) → find ip m ≡ none → find ip (age_cache ms m) ≡ none
unfolding age_cache
find-age_cache ms ip [] h = refl
find-age_cache ms ip ((j, w) ∷ m) h = ground (arith, find-age_cache ms ip m)

pub tick-Flushed : (n : NetworkInterface) (ms : ℕ) → Flushed n → Flushed (tick n ms)
unfolding tick
tick-Flushed n ms h j = ground (arith, h j, find-age_cache ms j n.cache_map)

SameTables-Flushed : (n m : NetworkInterface) → SameTables n m → Flushed n → Flushed m
SameTables-Flushed n m s h j =
    ground (arith, h j, ap (find j) s.same_cache, ap (find j) s.same_queue)

take_message-Flushed :
    (n m : NetworkInterface) (c : ArpMessage) (r : Option Ipv4Datagram)
    → Flushed n
    → take_message n c ≡ ok (r, m)
    → Flushed m
unfolding take_message
take_message-Flushed n m c r h e =
    let (k, learnt, more) = bind_ok (learn n c.sender_ip_address c.sender_ethernet_address) _ e in
    let (l, answered, end) = bind_ok (answer k c) _ more in
    let q : m ≡ l = ground (arith, end) in
    subst Flushed (sym q)
      (SameTables-Flushed k l (answer-SameTables k l c answered) (learn-Flushed n k _ _ h learnt))

recv_ipv4-same :
    (n m : NetworkInterface) (payload : BufferList) (r : Option Ipv4Datagram)
    → recv_ipv4 n payload ≡ ok (r, m)
    → m ≡ n
unfolding recv_ipv4
recv_ipv4-same n m payload r e = ground arith

recv_arp-Flushed :
    (n m : NetworkInterface) (payload : BufferList) (r : Option Ipv4Datagram)
    → Flushed n
    → recv_arp n payload ≡ ok (r, m)
    → Flushed m
unfolding recv_arp
recv_arp-Flushed n m payload r h e =
    let (x, parsed, rest) =
      bind_ok (ArpMessage.parse default_message (Buffer.of_string (BufferList.concatenate payload)))
        _ e in
    elim (Bool-cases (is_error x.0)) [
      | inl bad ↦ let q : m ≡ n = ground (arith, bad, rest) in subst Flushed (sym q) h
      | inr good ↦ take_message-Flushed n m x.1 r h (ground (arith, good, rest))
    ]

branches {ℓ} :
    {A : Type ℓ} (ignored ipv4 arp : Bool) (x y z : A)
    → ((if ignored then x else if ipv4 then y else if arp then z else x) ≡ x)
      ⊎ ((if ignored then x else if ipv4 then y else if arp then z else x) ≡ y)
      ⊎ ((if ignored then x else if ipv4 then y else if arp then z else x) ≡ z)
branches true ipv4 arp x y z = inl refl
branches false true arp x y z = inr (inl refl)
branches false false true x y z = inr (inr refl)
branches false false false x y z = inl refl

-- What a received frame comes down to.
pub recv_frame-cases :
    (n : NetworkInterface) (f : EthernetFrame)
    → (recv_frame n f ≡ ok (none, n))
      ⊎ (recv_frame n f ≡ recv_ipv4 n f.payload)
      ⊎ (recv_frame n f ≡ recv_arp n f.payload)
unfolding recv_frame
recv_frame-cases n f = branches _ _ _ _ _ _

pub recv_frame-Flushed :
    (n m : NetworkInterface) (f : EthernetFrame) (r : Option Ipv4Datagram)
    → Flushed n
    → recv_frame n f ≡ ok (r, m)
    → Flushed m
recv_frame-Flushed n m f r h e = elim (recv_frame-cases n f) [
  | inl same ↦ let q : m ≡ n = ground (arith, same, e) in subst Flushed (sym q) h
  | inr (inl ipv4) ↦ subst Flushed (sym (recv_ipv4-same n m f.payload r (sym ipv4 ∙ e))) h
  | inr (inr arp) ↦ recv_arp-Flushed n m f.payload r h (sym arp ∙ e)
]
