-- ===== src/TcpSegment.antt =====
-- libsponge/tcp_helpers/tcp_segment.{hh,cc}: a TCP segment.
pub mod Wire
use cs144_sponge.Base.{ℕ, ◌+◌, if◌then◌else◌, none, length}
use cs144_sponge.Buffer
use cs144_sponge.Buffer.{Buffer}
use cs144_sponge.TcpHeader.{TcpHeader, default_header}

pub record TcpSegment : Type 0 where
  pub header : TcpHeader
  pub payload : Buffer

-- `TCPSegment{}`
unfoldable pub new : TcpSegment
unfolding Buffer.empty
new = record { header = default_header; payload = Buffer.empty }

unfoldable pub length_in_sequence_space : TcpSegment → ℕ
length_in_sequence_space seg =
    length (Buffer.str seg.payload)
    + (if seg.header.syn then 1 else 0)
    + (if seg.header.fin then 1 else 0)

-- What `std::move` leaves behind: the header, and a payload without its storage.
unfoldable pub moved_from : TcpSegment → TcpSegment
moved_from seg = record seg {
  payload = record { storage = none; starting_offset = seg.payload.starting_offset };
}
