-- ===== src/EthernetFrame.antt =====
-- libsponge/tcp_helpers/ethernet_frame.{hh,cc}: Ethernet frames.
pub mod RoundTrip
mod Examples
use cs144_sponge.Base.{List, [], ◌∷◌, Result, ok, ◌>>=◌}
use cs144_sponge.Buffer
use cs144_sponge.Buffer.{Buffer}
use cs144_sponge.BufferList
use cs144_sponge.BufferList.{BufferList}
use cs144_sponge.NetParser
use cs144_sponge.NetParser.{ParseResult}
use cs144_sponge.EthernetHeader
use cs144_sponge.EthernetHeader.{EthernetHeader}

pub record EthernetFrame : Type 0 where
  pub header : EthernetHeader
  pub payload : BufferList

-- The outcome of the header's own `parse` is dropped; what the parser noted is returned.
unfoldable pub parse : EthernetFrame → Buffer → Result (ParseResult × EthernetFrame)
parse f b = EthernetHeader.parse f.header (NetParser.new b) >>= λ r.
    ok (r.2.parse_error, record { header = r.1; payload = r.2.buffer ∷ [] })

unfoldable pub serialize : EthernetFrame → BufferList
serialize f =
    BufferList.append
      (BufferList.append [] (BufferList.of_string (EthernetHeader.serialize f.header))) f.payload
