-- ===== src/NetworkInterface/Requests.antt =====
-- Requests for addresses are not repeated too soon.
use cs144_sponge.Base.{
  ℕ, ◌-◌, ◌*◌, ◌<◌, ◌≡◌, refl, ap, sym, subst, ◌∙◌, ◌⊎◌, inl, inr, Bool-cases, Option, none, some,
  List, [], ◌∷◌, ◌++◌, ok, bind_ok, find, insert, UniqueKeys, find-insert, insert-UniqueKeys, arith,
}
use cs144_sponge.EthernetHeader.{EthernetAddress}
use cs144_sponge.EthernetFrame.{EthernetFrame}
use cs144_sponge.ArpMessage
use cs144_sponge.ArpMessage.{ArpMessage, default_message}
use cs144_sponge.Buffer
use cs144_sponge.BufferList
use cs144_sponge.BufferList.{BufferList}
use cs144_sponge.NetParser.{is_error}
use cs144_sponge.Ipv4Datagram.{Ipv4Datagram}
use cs144_sponge.NetworkInterface.{
  NetworkInterface, new, enqueue, send_ipv4, broadcast_request, send_datagram, flush, learn, answer,
  take_message, recv_ipv4, recv_arp, recv_frame, tick,
}
use cs144_sponge.NetworkInterface.Flushed.{waiting, recv_frame-cases}
use cs144_sponge.NetworkInterface.Ageing.{find-tick, age_requests-UniqueKeys}
use cs144_sponge.NetworkInterface.Run.{Run, done, sent, received, ticked}

flush-requests :
    (n m : NetworkInterface) (mac : EthernetAddress) (queue : List Ipv4Datagram)
    → flush n mac queue ≡ ok m
    → m.arp_requests ≡ n.arp_requests
unfolding flush send_ipv4
flush-requests n m mac [] e = ground arith
flush-requests n m mac (d ∷ queue) e =
    let (k, first, others) = bind_ok (send_ipv4 n mac d) (λ m. flush m mac queue) e in
    ground (arith, first, flush-requests k m mac queue others)

learn-requests :
    (n m : NetworkInterface) (ip : ℕ) (mac : EthernetAddress)
    → learn n ip mac ≡ ok m
    → m.arp_requests ≡ n.arp_requests
unfolding learn
learn-requests n m ip mac e = grind (arith, flush-requests)

answer-requests :
    (n m : NetworkInterface) (c : ArpMessage) → answer n c ≡ ok m → m.arp_requests ≡ n.arp_requests
unfolding answer
answer-requests n m c e = ground arith

take_message-requests :
    (n m : NetworkInterface) (c : ArpMessage) (r : Option Ipv4Datagram)
    → take_message n c ≡ ok (r, m)
    → m.arp_requests ≡ n.arp_requests
unfolding take_message
take_message-requests n m c r e = grind (arith, learn-requests, answer-requests)

recv_ipv4-requests :
    (n m : NetworkInterface) (payload : BufferList) (r : Option Ipv4Datagram)
    → recv_ipv4 n payload ≡ ok (r, m)
    → m.arp_requests ≡ n.arp_requests
unfolding recv_ipv4
recv_ipv4-requests n m payload r e = ground arith

recv_arp-requests :
    (n m : NetworkInterface) (payload : BufferList) (r : Option Ipv4Datagram)
    → recv_arp n payload ≡ ok (r, m)
    → m.arp_requests ≡ n.arp_requests
unfolding recv_arp
recv_arp-requests n m payload r e =
    let (x, parsed, rest) =
      bind_ok (ArpMessage.parse default_message (Buffer.of_string (BufferList.concatenate payload)))
        _ e in
    elim (Bool-cases (is_error x.0)) [
      | inl bad ↦ ground (arith, bad, rest)
      | inr good ↦ take_message-requests n m x.1 r (ground (arith, good, rest))
    ]

recv_frame-requests :
    (n m : NetworkInterface) (f : EthernetFrame) (r : Option Ipv4Datagram)
    → recv_frame n f ≡ ok (r, m)
    → m.arp_requests ≡ n.arp_requests
recv_frame-requests n m f r e = elim (recv_frame-cases n f) [
  | inl same ↦ ground (arith, same, e)
  | inr (inl ipv4) ↦ recv_ipv4-requests n m f.payload r (sym ipv4 ∙ e)
  | inr (inr arp) ↦ recv_arp-requests n m f.payload r (sym arp ∙ e)
]

-- What a call makes of the table of requests: nothing, or one request more.
send_datagram-requests :
    (n m : NetworkInterface) (d : Ipv4Datagram) (ip : ℕ)
    → send_datagram n d ip ≡ ok m
    → (m.arp_requests ≡ n.arp_requests)
      ⊎ ((find ip n.arp_requests ≡ none) × (m.arp_requests ≡ insert ip (5 * 1000) n.arp_requests))
unfolding send_datagram send_ipv4 broadcast_request
send_datagram-requests n m d ip e = ground arith

send_datagram-UniqueKeys :
    (n m : NetworkInterface) (d : Ipv4Datagram) (ip : ℕ)
    → send_datagram n d ip ≡ ok m
    → UniqueKeys n.arp_requests
    → UniqueKeys m.arp_requests
send_datagram-UniqueKeys n m d ip e u = elim (send_datagram-requests n m d ip e) [
  | inl same ↦ subst UniqueKeys (sym same) u
  | inr (_, more) ↦ subst UniqueKeys (sym more) (insert-UniqueKeys ip (5 * 1000) n.arp_requests u)
]

send_datagram-stands :
    (n m : NetworkInterface) (d : Ipv4Datagram) (ip j left : ℕ)
    → send_datagram n d ip ≡ ok m
    → find j n.arp_requests ≡ some left
    → find j m.arp_requests ≡ some left
send_datagram-stands n m d ip j left e h = elim (send_datagram-requests n m d ip e) [
  | inl same ↦ ap (find j) same ∙ h
  | inr (fresh, more) ↦
      ap (find j) more ∙ ground (arith, find-insert j ip (5 * 1000) n.arp_requests, h, fresh)
]

Run-UniqueKeys :
    {n m : NetworkInterface} {t : ℕ}
    → Run n t m
    → UniqueKeys n.arp_requests
    → UniqueKeys m.arp_requests
unfolding tick
Run-UniqueKeys done u = u
Run-UniqueKeys {n} (sent {m = m} d ip e r) u =
    Run-UniqueKeys r (send_datagram-UniqueKeys n m d ip e u)
Run-UniqueKeys {n} (received {m = m} f o e r) u =
    Run-UniqueKeys r (subst UniqueKeys (sym (recv_frame-requests n m f o e)) u)
Run-UniqueKeys {n} (ticked ms r) u = Run-UniqueKeys r (age_requests-UniqueKeys ms n.arp_requests u)

-- A request stands until its time has passed.
Run-stands :
    {n m : NetworkInterface} {t : ℕ} (ip left : ℕ)
    → Run n t m
    → UniqueKeys n.arp_requests
    → find ip n.arp_requests ≡ some left
    → t < left
    → find ip m.arp_requests ≡ some (left - t)
unfolding tick
Run-stands ip left done u h lt = h ∙ ap some (omega arith)
Run-stands {n} ip left (sent {m = m} d j e r) u h lt =
    Run-stands ip left r (send_datagram-UniqueKeys n m d j e u)
      (send_datagram-stands n m d j ip left e h) lt
Run-stands {n} ip left (received {m = m} f o e r) u h lt =
    let same : m.arp_requests ≡ n.arp_requests = recv_frame-requests n m f o e in
    Run-stands ip left r (subst UniqueKeys (sym same) u) (ap (find ip) same ∙ h) lt
Run-stands {n} ip left (ticked {t = t} ms r) u h lt =
    let some_left : find ip (tick n ms).arp_requests ≡ some (left - ms) =
      find-tick n ms ip u ∙ ground (arith, h, lt) in
    Run-stands ip (left - ms) r (age_requests-UniqueKeys ms n.arp_requests u) some_left
      (omega (arith, lt))
    ∙ ap some (omega arith)

asked :
    (n m : NetworkInterface) (d : Ipv4Datagram) (ip : ℕ)
    → send_datagram n d ip ≡ ok m
    → find ip n.cache_map ≡ none
    → find ip n.arp_requests ≡ none
    → find ip m.arp_requests ≡ some (5 * 1000)
unfolding send_datagram broadcast_request
asked n m d ip e h k = ground (arith, find-insert ip ip (5 * 1000) n.arp_requests, h, k)

queued :
    (n : NetworkInterface) (d : Ipv4Datagram) (ip left : ℕ)
    → find ip n.cache_map ≡ none
    → find ip n.arp_requests ≡ some left
    → send_datagram n d ip ≡ ok (enqueue d ip n)
unfolding send_datagram
queued n d ip left h k = ground (arith, h, k)

-- When a datagram has caused a request for an address, then whatever happens in the next five seconds,
-- another datagram for that address, while it is still unknown, waits behind those that wait for it,
-- and no frame is sent.
pub not_asked_again :
    {n n1 m : NetworkInterface} {t : ℕ} (mac : EthernetAddress) (own before : ℕ)
    (d d' : Ipv4Datagram) (ip : ℕ)
    → Run (new mac own) before n
    → find ip n.cache_map ≡ none
    → find ip n.arp_requests ≡ none
    → send_datagram n d ip ≡ ok n1
    → Run n1 t m
    → t < 5 * 1000
    → find ip m.cache_map ≡ none
    → (m' : NetworkInterface) × (send_datagram m d' ip ≡ ok m')
      × (m'.frames_out ≡ m.frames_out)
      × (waiting m' ip ≡ waiting m ip ++ (d' ∷ []))
unfolding new
not_asked_again {n} {n1} {m} {t} mac own before d d' ip r h k e r1 lt unknown =
    let u : UniqueKeys n1.arp_requests =
      send_datagram-UniqueKeys n n1 d ip e (Run-UniqueKeys r tt) in
    let stands : find ip m.arp_requests ≡ some (5 * 1000 - t) =
      Run-stands ip (5 * 1000) r1 u (asked n n1 d ip e h k) lt in
    (
      enqueue d' ip m,
      queued m d' ip _ unknown stands,
      refl,
      ground (arith, find-insert ip ip (waiting m ip ++ (d' ∷ [])) m.datagram_queue),
    )
