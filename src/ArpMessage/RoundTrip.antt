-- ===== src/ArpMessage/RoundTrip.antt =====
-- An ARP message that is written is read back.
use cs144_sponge.Base.{
  ℕ, ◌≤◌, ◌≡◌, refl, ap, true, false, List, [], ◌++◌, arith, length, ok, IsU16, IsU32, IsByte, ltb,
  err, runtime_error,
}
use cs144_sponge.Buffer
use cs144_sponge.Buffer.{Buffer}
use cs144_sponge.Buffer.Laws.{str-of_string}
use cs144_sponge.NetParser
use cs144_sponge.NetParser.{
  NetParser, ParseResult, no_error, unsupported, packet_too_short, unparse_int, put_u8, put_u16,
  put_u32,
}
use cs144_sponge.NetParser.RoundTrip.{Has, u8-unparse_int, u16-unparse_int, u32-unparse_int}
use cs144_sponge.EthernetHeader.{put_address}
use cs144_sponge.EthernetHeader.RoundTrip.{AddressFits, address_bytes, parse_address_ok}
use cs144_sponge.ArpMessage.{
  ArpMessage, message_length, supported, parse_kind, parse_addresses, parse, serialize,
}

pub record Fits (m : ArpMessage) : Type 0 where
  pub kind : supported m ≡ true
  pub hardware_type_fits : IsU16 m.hardware_type
  pub protocol_type_fits : IsU16 m.protocol_type
  pub hardware_address_size_fits : IsByte m.hardware_address_size
  pub protocol_address_size_fits : IsByte m.protocol_address_size
  pub opcode_fits : IsU16 m.opcode
  pub sender_ethernet_fits : AddressFits m.sender_ethernet_address
  pub sender_ip_fits : IsU32 m.sender_ip_address
  pub target_ethernet_fits : AddressFits m.target_ethernet_address
  pub target_ip_fits : IsU32 m.target_ip_address

kind_bytes : ArpMessage → List ℕ → List ℕ
kind_bytes m rest =
    unparse_int 2 m.hardware_type
    ++ (unparse_int 2 m.protocol_type
        ++ (unparse_int 1 m.hardware_address_size
            ++ (unparse_int 1 m.protocol_address_size ++ (unparse_int 2 m.opcode ++ rest))))

addresses_bytes : ArpMessage → List ℕ → List ℕ
addresses_bytes m rest =
    address_bytes m.sender_ethernet_address
    ++ (unparse_int 4 m.sender_ip_address
        ++ (address_bytes m.target_ethernet_address ++ (unparse_int 4 m.target_ip_address ++ rest)))

-- The bytes that are written for a message.
pub bytes : ArpMessage → List ℕ
bytes m = kind_bytes m (addresses_bytes m [])

pub serialize-bytes : (m : ArpMessage) → supported m ≡ true → serialize m ≡ ok (bytes m)
unfolding serialize bytes kind_bytes addresses_bytes put_address put_u8 put_u16 put_u32
serialize-bytes m e = rw e

length-bytes : (m : ArpMessage) → length (bytes m) ≡ message_length
unfolding bytes kind_bytes addresses_bytes put_address put_u8
length-bytes m = refl

parse_kind_ok :
    (g m : ArpMessage) (rest : List ℕ) (p : NetParser)
    → Fits m
    → Has p (kind_bytes m rest)
    → (p' : NetParser) × (parse_kind g p
        ≡ ok (
          record g {
            hardware_type = m.hardware_type;
            protocol_type = m.protocol_type;
            hardware_address_size = m.hardware_address_size;
            protocol_address_size = m.protocol_address_size;
            opcode = m.opcode;
          },
          p',
        ))
      × Has p' rest
unfolding parse_kind kind_bytes
parse_kind_ok g m rest p v has =
    let (p1, e1, h1) = u16-unparse_int m.hardware_type _ p v.hardware_type_fits has in
    let (p2, e2, h2) = u16-unparse_int m.protocol_type _ p1 v.protocol_type_fits h1 in
    let (p3, e3, h3) =
      u8-unparse_int m.hardware_address_size _ p2 v.hardware_address_size_fits h2 in
    let (p4, e4, h4) =
      u8-unparse_int m.protocol_address_size _ p3 v.protocol_address_size_fits h3 in
    let (p5, e5, h5) = u16-unparse_int m.opcode rest p4 v.opcode_fits h4 in
    (p5, rw (e1, e2, e3, e4, e5), h5)

parse_addresses_ok :
    (g m : ArpMessage) (rest : List ℕ) (p : NetParser)
    → Fits m
    → Has p (addresses_bytes m rest)
    → (p' : NetParser) × (parse_addresses g p
        ≡ ok (
          record g {
            sender_ethernet_address = m.sender_ethernet_address;
            sender_ip_address = m.sender_ip_address;
            target_ethernet_address = m.target_ethernet_address;
            target_ip_address = m.target_ip_address;
          },
          p',
        ))
      × Has p' rest
unfolding parse_addresses addresses_bytes
parse_addresses_ok g m rest p v has =
    let (p1, e1, h1) = parse_address_ok m.sender_ethernet_address _ p v.sender_ethernet_fits has in
    let (p2, e2, h2) = u32-unparse_int m.sender_ip_address _ p1 v.sender_ip_fits h1 in
    let (p3, e3, h3) = parse_address_ok m.target_ethernet_address _ p2 v.target_ethernet_fits h2 in
    let (p4, e4, h4) = u32-unparse_int m.target_ip_address rest p3 v.target_ip_fits h3 in
    (p4, rw (e1, e2, e3, e4), h4)

pub parse-bytes :
    (g m : ArpMessage) → Fits m → parse g (Buffer.of_string (bytes m)) ≡ ok (no_error, m)
unfolding parse NetParser.new bytes Buffer.size
parse-bytes g m v =
    let g1 : ArpMessage = record g {
      hardware_type = m.hardware_type;
      protocol_type = m.protocol_type;
      hardware_address_size = m.hardware_address_size;
      protocol_address_size = m.protocol_address_size;
      opcode = m.opcode;
    } in
    let start : NetParser = NetParser.new (Buffer.of_string (bytes m)) in
    let (p, e, k) =
      parse_kind_ok g m _ start v (record { left = str-of_string (bytes m); fine = refl }) in
    let (q, f, l) = parse_addresses_ok g1 m [] p v k in
    let enough : ltb (length (Buffer.str (Buffer.of_string (bytes m)))) message_length ≡ false =
      ground (arith, ap length (str-of_string (bytes m)), length-bytes m) in
    let same : supported g1 ≡ true = (unfold supported in v.kind) in
    rw (enough, e, same, f) (ap (λ r. ok (r, m)) l.fine)

-- A supported message whose fields fit is written without an exception, in 28 bytes, and is read back
-- from them without an error.
pub message_round_trip :
    (g m : ArpMessage)
    → Fits m
    → (s : List ℕ) × (serialize m ≡ ok s)
      × (length s ≡ message_length)
      × (parse g (Buffer.of_string s) ≡ ok (no_error, m))
message_round_trip g m v = (bytes m, serialize-bytes m v.kind, length-bytes m, parse-bytes g m v)

-- A message that is not supported is not written: an exception is thrown.
pub unsupported_not_written :
    (m : ArpMessage) → supported m ≡ false → serialize m ≡ err runtime_error
unfolding serialize
unsupported_not_written m e = rw e

supported_addresses :
    (m n : ArpMessage) (p q : NetParser)
    → parse_addresses m p ≡ ok (n, q)
    → supported n ≡ supported m
unfolding parse_addresses supported
supported_addresses m n p q e = ground arith

-- Whatever the bytes are, a message that is read without an error is a supported one, from 28 bytes at
-- least.
pub parse-supported :
    (g m : ArpMessage) (b : Buffer)
    → parse g b ≡ ok (no_error, m)
    → (supported m ≡ true) × (message_length ≤ Buffer.size b)
unfolding parse
parse-supported g m b e = grind (arith, supported_addresses)
