-- ===== src/EthernetHeader.antt =====
-- libsponge/tcp_helpers/ethernet_header.{hh,cc}: Ethernet headers.
pub mod RoundTrip
pub mod Samples
use cs144_sponge.Base.{ℕ, List, [], ltb, if◌then◌else◌, Result, ok, ◌>>=◌}
use cs144_sponge.Buffer
use cs144_sponge.Buffer.{Buffer}
use cs144_sponge.BufferList.{BufferList}
use cs144_sponge.NetParser
use cs144_sponge.NetParser.{NetParser, ParseResult, packet_too_short, put_u8, put_u16}

-- `std::array<uint8_t, 6>`
pub record EthernetAddress : Type 0 where
  pub b0 : ℕ
  pub b1 : ℕ
  pub b2 : ℕ
  pub b3 : ℕ
  pub b4 : ℕ
  pub b5 : ℕ

abbrev pub broadcast : EthernetAddress
broadcast = record { b0 = 255; b1 = 255; b2 = 255; b3 = 255; b4 = 255; b5 = 255 }

abbrev pub header_length : ℕ
header_length = 14

abbrev pub type_ipv4 : ℕ
type_ipv4 = 2048

abbrev pub type_arp : ℕ
type_arp = 2054

pub record EthernetHeader : Type 0 where
  pub dst : EthernetAddress
  pub src : EthernetAddress
  pub ether_type : ℕ

-- The loop `for (auto &byte : address) byte = p.u8()`.
unfoldable pub parse_address : NetParser → Result (EthernetAddress × NetParser)
parse_address p = NetParser.u8 p >>= λ x0. NetParser.u8 x0.1 >>= λ x1. NetParser.u8 x1.1 >>= λ x2.
    NetParser.u8 x2.1 >>= λ x3. NetParser.u8 x3.1 >>= λ x4. NetParser.u8 x4.1 >>= λ x5.
    ok (record { b0 = x0.0; b1 = x1.0; b2 = x2.0; b3 = x3.0; b4 = x4.0; b5 = x5.0 }, x5.1)

unfoldable pub put_address : List ℕ → EthernetAddress → List ℕ
put_address s a =
    put_u8 (put_u8 (put_u8 (put_u8 (put_u8 (put_u8 s a.b0) a.b1) a.b2) a.b3) a.b4) a.b5

-- The outcome, the header with the fields that were read, and the parser.
unfoldable pub parse :
    EthernetHeader → NetParser → Result (ParseResult × EthernetHeader × NetParser)
parse h p =
    if ltb (Buffer.size p.buffer) header_length
    then ok (packet_too_short, h, p)
    else (parse_address p >>= λ dst. parse_address dst.1 >>= λ src. NetParser.u16 src.1 >>= λ t.
        ok (t.1.parse_error, record { dst = dst.0; src = src.0; ether_type = t.0 }, t.1))

unfoldable pub serialize : EthernetHeader → List ℕ
serialize h = put_u16 (put_address (put_address [] h.dst) h.src) h.ether_type
