-- ===== src/TcpSegment/Wire.antt =====
-- libsponge/tcp_helpers/tcp_segment.cc: a TCP segment on the wire.
pub mod RoundTrip
pub mod Written
mod Examples
use cs144_sponge.Base.{ℕ, not, List, [], ◌∷◌, ◌==◌, if◌then◌else◌, Result, ok, ◌>>=◌}
use cs144_sponge.Buffer
use cs144_sponge.Buffer.{Buffer}
use cs144_sponge.BufferList
use cs144_sponge.BufferList.{BufferList}
use cs144_sponge.InternetChecksum
use cs144_sponge.NetParser
use cs144_sponge.NetParser.{ParseResult, bad_checksum}
use cs144_sponge.TcpHeader.Wire as Header
use cs144_sponge.TcpSegment.{TcpSegment}

-- The outcome and the segment. The outcome of the header's own `parse` is dropped; what the parser
-- noted is returned.
unfoldable pub parse : TcpSegment → Buffer → ℕ → Result (ParseResult × TcpSegment)
parse seg b datagram_layer_checksum =
    InternetChecksum.value
      (InternetChecksum.add (Buffer.str b) (InternetChecksum.new datagram_layer_checksum))
    >>= λ v.
        if not (v == 0)
        then ok (bad_checksum, seg)
        else (Header.parse seg.header (NetParser.new b) >>= λ r.
            ok (r.2.parse_error, record { header = r.1; payload = r.2.buffer }))

unfoldable pub serialize : TcpSegment → ℕ → Result BufferList
serialize seg datagram_layer_checksum =
    Header.serialize (record (seg.header) { cksum = 0 }) >>= λ zeroed.
    InternetChecksum.value (
      InternetChecksum.add (Buffer.str seg.payload)
        (InternetChecksum.add zeroed (InternetChecksum.new datagram_layer_checksum)))
    >>= λ cksum. Header.serialize (record (seg.header) { cksum = cksum }) >>= λ header.
        ok (
          BufferList.append (BufferList.append [] (BufferList.of_string header)) (seg.payload ∷ []))
