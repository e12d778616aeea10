-- ===== src/Ipv4Datagram.antt =====
-- libsponge/tcp_helpers/ipv4_datagram.{hh,cc}: an IPv4 datagram.
pub mod RoundTrip
pub mod Samples
mod Examples
use cs144_sponge.Base.{
  ℕ, not, List, [], ◌==◌, if◌then◌else◌, Result, ok, err, runtime_error, ◌>>=◌, ◌∷◌,
}
use cs144_sponge.Buffer
use cs144_sponge.Buffer.{Buffer}
use cs144_sponge.BufferList
use cs144_sponge.BufferList.{BufferList}
use cs144_sponge.InternetChecksum
use cs144_sponge.Ipv4Header
use cs144_sponge.Ipv4Header.{Ipv4Header, default_header, payload_length}
use cs144_sponge.NetParser
use cs144_sponge.NetParser.{ParseResult, packet_too_short}

pub record Ipv4Datagram : Type 0 where
  pub header : Ipv4Header
  pub payload : BufferList

-- `InternetDatagram{}`
abbrev pub default_datagram : Ipv4Datagram
default_datagram = record { header = default_header; payload = [] }

-- The outcome of the header's own `parse` is dropped; what the parser noted is returned.
unfoldable pub parse : Ipv4Datagram → Buffer → Result (ParseResult × Ipv4Datagram)
parse d b = Ipv4Header.parse d.header (NetParser.new b) >>= λ r.
    let d' : Ipv4Datagram = record { header = r.1; payload = r.2.buffer ∷ [] } in
    if not (BufferList.size d'.payload == payload_length d'.header)
    then ok (packet_too_short, d')
    else ok (r.2.parse_error, d')

unfoldable pub serialize : Ipv4Datagram → Result BufferList
serialize d =
    if not (BufferList.size d.payload == payload_length d.header)
    then err runtime_error
    else (Ipv4Header.serialize (record (d.header) { cksum = 0 }) >>= λ zeroed.
        InternetChecksum.value (InternetChecksum.add zeroed (InternetChecksum.new 0)) >>= λ cksum.
        Ipv4Header.serialize (record (d.header) { cksum = cksum }) >>= λ header.
        ok (BufferList.append (BufferList.append [] (BufferList.of_string header)) d.payload))
