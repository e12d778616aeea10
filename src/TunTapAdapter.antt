-- ===== src/TunTapAdapter.antt =====
-- libsponge/tcp_helpers/tuntap_adapter.{hh,cc}: TCP segments over a TUN device, in IPv4 datagrams, and
-- over a TAP device, in Ethernet frames. What a device gives is an argument; each write to it is
-- complete, a list of bytes.
pub mod Frames
pub mod Stack
mod Examples
use cs144_sponge.Base.{ℕ, Option, none, some, List, [], ◌∷◌, ◌++◌, if◌then◌else◌, Result, ok, ◌>>=◌}
use cs144_sponge.Buffer
use cs144_sponge.BufferList
use cs144_sponge.NetParser.{is_error}
use cs144_sponge.TcpSegment.{TcpSegment}
use cs144_sponge.EthernetHeader.{EthernetAddress, EthernetHeader}
use cs144_sponge.EthernetFrame
use cs144_sponge.EthernetFrame.{EthernetFrame}
use cs144_sponge.Ipv4Datagram
use cs144_sponge.Ipv4Datagram.{Ipv4Datagram, default_datagram}
use cs144_sponge.NetworkInterface
use cs144_sponge.NetworkInterface.{NetworkInterface}
use cs144_sponge.FdAdapter.{FdAdapterBase, default_adapter}
use cs144_sponge.TcpOverIp.{unwrap_tcp_in_ip, wrap_tcp_in_ip}

-- `TCPOverIPv4OverTunFdAdapter::read`
unfoldable pub read_tun :
    (ℕ → ℕ) → FdAdapterBase → List ℕ → Result (Option TcpSegment × FdAdapterBase)
read_tun through_text a bytes =
    Ipv4Datagram.parse default_datagram (Buffer.of_string bytes) >>= λ r.
    if is_error r.0 then ok (none, a) else unwrap_tcp_in_ip through_text a r.1

-- `TCPOverIPv4OverTunFdAdapter::write`: the bytes, and the segment with its ports.
unfoldable pub write_tun : FdAdapterBase → TcpSegment → Result (List ℕ × TcpSegment)
write_tun a seg = wrap_tcp_in_ip a seg >>= λ w.
    Ipv4Datagram.serialize w.0 >>= λ out. ok (BufferList.concatenate out, w.1)

-- `TCPOverIPv4OverEthernetAdapter`; `tap` is what was written to the device.
pub record EthernetAdapter : Type 0 where
  pub base : FdAdapterBase
  pub tap : List (List ℕ)
  pub interface : NetworkInterface
  pub next_hop : ℕ

abbrev no_address : EthernetAddress
no_address = record { b0 = 0; b1 = 0; b2 = 0; b3 = 0; b4 = 0; b5 = 0 }

-- `EthernetFrame{}`
abbrev pub default_frame : EthernetFrame
default_frame = record {
  header = record { dst = no_address; src = no_address; ether_type = 0 };
  payload = [];
}

abbrev pub frame_bytes : EthernetFrame → List ℕ
frame_bytes frame = BufferList.concatenate (EthernetFrame.serialize frame)

-- A dummy frame is written first.
unfoldable pub new : EthernetAddress → ℕ → ℕ → EthernetAdapter
new eth_address ip_address next_hop = record {
  base = default_adapter;
  tap = frame_bytes default_frame ∷ [];
  interface = NetworkInterface.new eth_address ip_address;
  next_hop = next_hop;
}

-- The loop of `send_pending`, over the frames that wait.
unfoldable pub write_frames : List EthernetFrame → List (List ℕ) → List (List ℕ)
write_frames [] tap = tap
write_frames (frame ∷ frames) tap = write_frames frames (tap ++ (frame_bytes frame ∷ []))

unfoldable pub send_pending : EthernetAdapter → EthernetAdapter
unfolding write_frames
send_pending a = record a {
  tap = write_frames a.interface.frames_out a.tap;
  interface = record (a.interface) { frames_out = [] };
}

-- A datagram that was in the frame.
unfoldable pub take_datagram :
    (ℕ → ℕ) → Option Ipv4Datagram → EthernetAdapter → Result (Option TcpSegment × EthernetAdapter)
take_datagram through_text none a = ok (none, a)
take_datagram through_text (some d) a =
    unwrap_tcp_in_ip through_text a.base d >>= λ r. ok (r.0, record a { base = r.1 })

unfoldable pub read :
    (ℕ → ℕ) → List ℕ → EthernetAdapter → Result (Option TcpSegment × EthernetAdapter)
unfolding take_datagram send_pending
read through_text bytes a = EthernetFrame.parse default_frame (Buffer.of_string bytes) >>= λ r.
    if is_error r.0
    then ok (none, a)
    else (NetworkInterface.recv_frame a.interface r.1 >>= λ d.
        take_datagram through_text d.0 (send_pending (record a { interface = d.1 })))

unfoldable pub tick : ℕ → EthernetAdapter → EthernetAdapter
unfolding send_pending
tick ms_since_last_tick a =
    send_pending (record a { interface = NetworkInterface.tick a.interface ms_since_last_tick })

-- The adapter after, and the segment with its ports.
unfoldable pub write : TcpSegment → EthernetAdapter → Result (TcpSegment × EthernetAdapter)
unfolding send_pending
write seg a = wrap_tcp_in_ip a.base seg >>= λ w.
    NetworkInterface.send_datagram a.interface w.0 a.next_hop >>= λ n.
    ok (w.1, send_pending (record a { interface = n }))
