-- ===== src/ArpMessage.antt =====
-- libsponge/tcp_helpers/arp_message.{hh,cc}: ARP messages.
pub mod RoundTrip
mod Examples
use cs144_sponge.Base.{
  ℕ, Bool, ◌&&◌, ◌||◌, not, List, [], ltb, ◌==◌, if◌then◌else◌, Result, ok, err, runtime_error,
  ◌>>=◌,
}
use cs144_sponge.Buffer
use cs144_sponge.Buffer.{Buffer}
use cs144_sponge.NetParser
use cs144_sponge.NetParser.{
  NetParser, ParseResult, packet_too_short, unsupported, put_u8, put_u16, put_u32,
}
use cs144_sponge.EthernetHeader.{EthernetAddress, type_ipv4, parse_address, put_address}

abbrev pub message_length : ℕ
message_length = 28

abbrev pub type_ethernet : ℕ
type_ethernet = 1

abbrev pub opcode_request : ℕ
opcode_request = 1

abbrev pub opcode_reply : ℕ
opcode_reply = 2

pub record ArpMessage : Type 0 where
  pub hardware_type : ℕ
  pub protocol_type : ℕ
  pub hardware_address_size : ℕ
  pub protocol_address_size : ℕ
  pub opcode : ℕ
  pub sender_ethernet_address : EthernetAddress
  pub sender_ip_address : ℕ
  pub target_ethernet_address : EthernetAddress
  pub target_ip_address : ℕ

abbrev zero_address : EthernetAddress
zero_address = record { b0 = 0; b1 = 0; b2 = 0; b3 = 0; b4 = 0; b5 = 0 }

-- `ARPMessage{}`
abbrev pub default_message : ArpMessage
default_message = record {
  hardware_type = type_ethernet;
  protocol_type = type_ipv4;
  hardware_address_size = 6;
  protocol_address_size = 4;
  opcode = 0;
  sender_ethernet_address = zero_address;
  sender_ip_address = 0;
  target_ethernet_address = zero_address;
  target_ip_address = 0;
}

unfoldable pub supported : ArpMessage → Bool
supported m =
    m.hardware_type == type_ethernet
    && m.protocol_type == type_ipv4
    && m.hardware_address_size == 6
    && m.protocol_address_size == 4
    && (m.opcode == opcode_request || m.opcode == opcode_reply)

-- The five fields before the addresses.
pub parse_kind : ArpMessage → NetParser → Result (ArpMessage × NetParser)
parse_kind m p = NetParser.u16 p >>= λ hw. NetParser.u16 hw.1 >>= λ pr. NetParser.u8 pr.1 >>= λ hs.
    NetParser.u8 hs.1 >>= λ ps. NetParser.u16 ps.1 >>= λ op. ok (
      record m {
        hardware_type = hw.0;
        protocol_type = pr.0;
        hardware_address_size = hs.0;
        protocol_address_size = ps.0;
        opcode = op.0;
      },
      op.1,
    )

pub parse_addresses : ArpMessage → NetParser → Result (ArpMessage × NetParser)
parse_addresses m p = parse_address p >>= λ se. NetParser.u32 se.1 >>= λ si.
    parse_address si.1 >>= λ te. NetParser.u32 te.1 >>= λ ti. ok (
      record m {
        sender_ethernet_address = se.0;
        sender_ip_address = si.0;
        target_ethernet_address = te.0;
        target_ip_address = ti.0;
      },
      ti.1,
    )

-- The outcome, and the message with the fields that were read.
unfoldable pub parse : ArpMessage → Buffer → Result (ParseResult × ArpMessage)
parse m b =
    if ltb (Buffer.size b) message_length
    then ok (packet_too_short, m)
    else (parse_kind m (NetParser.new b) >>= λ r.
        if not (supported r.0)
        then ok (unsupported, r.0)
        else (parse_addresses r.0 r.1 >>= λ t. ok (t.1.parse_error, t.0)))

unfoldable pub serialize : ArpMessage → Result (List ℕ)
serialize m =
    if not (supported m)
    then err runtime_error
    else (let s1 = put_u16 (put_u16 [] m.hardware_type) m.protocol_type in
        let s2 = put_u8 (put_u8 s1 m.hardware_address_size) m.protocol_address_size in
        let s3 =
          put_u32 (put_address (put_u16 s2 m.opcode) m.sender_ethernet_address)
            m.sender_ip_address in
        ok (put_u32 (put_address s3 m.target_ethernet_address) m.target_ip_address))
