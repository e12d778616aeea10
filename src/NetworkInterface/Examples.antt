-- ===== src/NetworkInterface/Examples.antt =====
-- An interface that looks for an address, on concrete inputs.
use cs144_sponge.Base.{
  ℕ, ◌+◌, ◌*◌, ◌≡◌, ◌⊎◌, refl, none, some, [], ◌∷◌, ◌++◌, ◌==◌, if◌then◌else◌, find, arith, ok,
}
use cs144_sponge.BufferList
use cs144_sponge.EthernetHeader.{type_arp}
use cs144_sponge.EthernetHeader.Samples.{
  first_mac, second_mac, first_mac-AddressFits, second_mac-AddressFits,
}
use cs144_sponge.EthernetFrame.{EthernetFrame}
use cs144_sponge.ArpMessage.{ArpMessage}
use cs144_sponge.ArpMessage.RoundTrip.{bytes, Fits}
use cs144_sponge.Ipv4Header.RoundTrip.{right_cksum}
use cs144_sponge.Ipv4Datagram.{Ipv4Datagram}
use cs144_sponge.Ipv4Datagram.Samples.{sample_header, sample_datagram, sample_datagram-IsWhole}
use cs144_sponge.NetworkInterface.{
  NetworkInterface, new, tick, frame_to, request_for, reply_from, send_datagram, recv_frame,
}
use cs144_sponge.NetworkInterface.Flushed.{waiting}
use cs144_sponge.NetworkInterface.Ageing.{tick_ages}
use cs144_sponge.NetworkInterface.Run.{done, sent, ticked, known_not_waiting}
use cs144_sponge.NetworkInterface.Requests.{not_asked_again}
use cs144_sponge.NetworkInterface.Delivery.{frames_for, replies, waiting_delivered}
use cs144_sponge.NetworkInterface.Exchange.{
  asked_state, asks, request-Fits, reply-Fits, parsed_payload, resolve_and_deliver,
}

abbrev first_ip : ℕ
first_ip = 3232235777

abbrev second_ip : ℕ
second_ip = 3232236034

abbrev fresh : NetworkInterface
fresh = new first_mac first_ip

sample-Fits : Fits (request_for fresh second_ip)
sample-Fits =
    request-Fits first_mac first_ip second_ip first_mac-AddressFits (omega arith) (omega arith)

abbrev asking : NetworkInterface
asking = asked_state first_mac first_ip second_ip sample_datagram

has_asked : send_datagram fresh sample_datagram second_ip ≡ ok asking
has_asked = asks first_mac first_ip second_ip sample_datagram sample-Fits

-- The first interface has learned an address and waits for another.
abbrev both : NetworkInterface
both = record asking { cache_map = (7, (second_mac, 30 * 1000)) ∷ [] }

tick_ages_example :
    (find 7 (tick both 2000).cache_map ≡ some (second_mac, 28000))
    × (find 7 (tick both 2000).arp_requests ≡ none)
    × ((tick both 2000).datagram_queue ≡ both.datagram_queue)
    × ((tick both 2000).frames_out ≡ both.frames_out)
tick_ages_example = tick_ages both 2000 7 (refl, tt) (refl, tt)

known_not_waiting_example :
    (find second_ip asking.cache_map ≡ none) ⊎ (waiting asking second_ip ≡ [])
known_not_waiting_example =
    known_not_waiting {m = asking} {t = 0} first_mac first_ip second_ip
      (sent sample_datagram second_ip has_asked done)

not_asked_again_example :
    (m : NetworkInterface) × (send_datagram (tick asking 3000) sample_datagram second_ip ≡ ok m)
    × (m.frames_out ≡ (tick asking 3000).frames_out)
    × (waiting m second_ip ≡ waiting (tick asking 3000) second_ip ++ (sample_datagram ∷ []))
unfolding new tick cs144_sponge.NetworkInterface.age_cache
not_asked_again_example =
    not_asked_again {n = fresh} {n1 = asking} {m = tick asking 3000} {t = 3000 + 0} first_mac
      first_ip 0 sample_datagram sample_datagram second_ip done refl refl has_asked
      (ticked 3000 done) (omega arith) refl

abbrev sample_reply : ArpMessage
sample_reply = reply_from second_mac second_ip (request_for fresh second_ip)

abbrev reply_frame : EthernetFrame
reply_frame =
    frame_to (new second_mac second_ip) first_mac type_arp
      (BufferList.of_string (bytes sample_reply))

waiting_delivered_example :
    (m : NetworkInterface) × (recv_frame asking reply_frame ≡ ok (none, m))
    × (m.ethernet_address ≡ asking.ethernet_address)
    × (m.ip_address ≡ asking.ip_address)
    × (m.frames_out
        ≡ (asking.frames_out
            ++ frames_for asking.ethernet_address second_mac (waiting asking second_ip))
          ++ replies asking.ethernet_address asking.ip_address sample_reply)
    × (find second_ip m.cache_map ≡ (
        if second_ip == second_ip
        then some (second_mac, 30 * 1000)
        else find second_ip asking.cache_map))
    × (waiting m second_ip ≡ (if second_ip == second_ip then [] else waiting asking second_ip))
unfolding new
waiting_delivered_example =
    waiting_delivered asking reply_frame sample_reply second_ip refl refl
      (parsed_payload sample_reply (
        reply-Fits second_mac second_ip (request_for fresh second_ip) second_mac-AddressFits
          (omega arith) sample-Fits))
      (sample_datagram-IsWhole, tt)

resolve_and_deliver_example :
    (a1 a2 b1 : NetworkInterface) × (request reply carrier : EthernetFrame) × (d : Ipv4Datagram)
    × (send_datagram fresh sample_datagram second_ip ≡ ok a1)
    × (a1.frames_out ≡ request ∷ [])
    × (recv_frame (new second_mac second_ip) request ≡ ok (none, b1))
    × (b1.frames_out ≡ reply ∷ [])
    × (recv_frame a1 reply ≡ ok (none, a2))
    × (a2.frames_out ≡ request ∷ carrier ∷ [])
    × (recv_frame b1 carrier ≡ ok (some d, b1))
    × (d.header ≡ record sample_header { cksum = right_cksum sample_header })
    × (BufferList.concatenate d.payload ≡ BufferList.concatenate sample_datagram.payload)
resolve_and_deliver_example =
    resolve_and_deliver first_mac second_mac first_ip second_ip sample_datagram
      first_mac-AddressFits second_mac-AddressFits (omega arith) (omega arith)
      sample_datagram-IsWhole
