-- ===== src/TcpOverIp.antt =====
-- libsponge/tcp_helpers/tcp_over_ip.{hh,cc}: TCP segments in IPv4 datagrams.
-- The system turns the number of an address into text and back: `through_text` is what becomes of it.
pub mod Carried
mod Examples
use cs144_sponge.Base.{
  ℕ, ◌+◌, ◌*◌, Bool, false, ◌&&◌, not, Option, none, some, List, ◌==◌, if◌then◌else◌, u16, Result,
  ok, ◌>>=◌,
}
use cs144_sponge.Buffer
use cs144_sponge.BufferList
use cs144_sponge.BufferList.{BufferList}
use cs144_sponge.NetParser.{is_error}
use cs144_sponge.TcpHeader.{TcpHeader}
use cs144_sponge.TcpSegment
use cs144_sponge.TcpSegment.{TcpSegment}
use cs144_sponge.TcpSegment.Wire as Segment
use cs144_sponge.Ipv4Header.{Ipv4Header, proto_tcp, pseudo_cksum}
use cs144_sponge.Ipv4Datagram.{Ipv4Datagram, default_datagram}
use cs144_sponge.FdAdapter.{Address, FdAdapterBase, FdAdapterConfig, set_listening, set_ports}

-- The checks of the IPv4 header.
unfoldable pub is_related : FdAdapterBase → Ipv4Header → Bool
is_related a h =
    if not a.listen && not (h.dst == a.cfg.source.ipv4_numeric)
    then false
    else if not a.listen && not (h.src == a.cfg.destination.ipv4_numeric)
    then false
    else h.proto == proto_tcp

-- The peer that sent a SYN is taken on.
unfoldable pub take_peer : (ℕ → ℕ) → FdAdapterBase → Ipv4Header → TcpSegment → FdAdapterBase
unfolding set_listening
take_peer through_text a h seg = set_listening false (record a {
  cfg = record (a.cfg) {
    source = record { ipv4_numeric = through_text h.dst; port = a.cfg.source.port };
    destination = record { ipv4_numeric = through_text h.src; port = seg.header.sport };
  };
})

abbrev pub check_peer : FdAdapterBase → TcpSegment → Option TcpSegment × FdAdapterBase
check_peer a seg =
    if not (seg.header.sport == a.cfg.destination.port) then (none, a) else (some seg, a)

-- The checks of a segment that was read without an error.
unfoldable pub filter_segment :
    (ℕ → ℕ) → FdAdapterBase → Ipv4Header → TcpSegment → Option TcpSegment × FdAdapterBase
filter_segment through_text a h seg =
    if not (seg.header.dport == a.cfg.source.port)
    then (none, a)
    else if a.listen
    then (if seg.header.syn && not seg.header.rst
        then check_peer (take_peer through_text a h seg) seg
        else (none, a))
    else check_peer a seg

unfoldable pub unwrap_tcp_in_ip :
    (ℕ → ℕ) → FdAdapterBase → Ipv4Datagram → Result (Option TcpSegment × FdAdapterBase)
unwrap_tcp_in_ip through_text a d =
    if not (is_related a d.header)
    then ok (none, a)
    else (BufferList.to_buffer d.payload >>= λ b.
        Segment.parse TcpSegment.new b (pseudo_cksum d.header) >>= λ r.
        ok (if is_error r.0 then (none, a) else filter_segment through_text a d.header r.1))

-- The header of the datagram for a segment.
unfoldable pub header_for : FdAdapterBase → TcpSegment → Ipv4Header
header_for a seg = record (default_datagram.header) {
  src = a.cfg.source.ipv4_numeric;
  dst = a.cfg.destination.ipv4_numeric;
  len = u16 (default_datagram.header.hlen * 4 + seg.header.doff * 4 + Buffer.size seg.payload);
}

-- The datagram, and the segment with its ports.
unfoldable pub wrap_tcp_in_ip : FdAdapterBase → TcpSegment → Result (Ipv4Datagram × TcpSegment)
wrap_tcp_in_ip a seg =
    let seg' : TcpSegment = set_ports a seg in
    Segment.serialize seg' (pseudo_cksum (header_for a seg')) >>= λ payload.
    ok (record { header = header_for a seg'; payload = payload }, seg')
