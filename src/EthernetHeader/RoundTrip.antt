-- ===== src/EthernetHeader/RoundTrip.antt =====
-- An Ethernet header that is written is read back.
use cs144_sponge.Base.{
  ℕ, ◌≡◌, refl, ap, subst, List, [], ◌++◌, arith, length, ok, length-append, append_assoc, IsU16,
  IsByte, ltb, false,
}
use cs144_sponge.Buffer
use cs144_sponge.NetParser.{NetParser, no_error, unparse_int, put_u8, put_u16}
use cs144_sponge.NetParser.RoundTrip.{Has, u8-unparse_int, u16-unparse_int}
use cs144_sponge.EthernetHeader.{
  EthernetAddress, EthernetHeader, header_length, parse_address, put_address, parse, serialize,
}

pub record AddressFits (a : EthernetAddress) : Type 0 where
  pub b0_fits : IsByte a.b0
  pub b1_fits : IsByte a.b1
  pub b2_fits : IsByte a.b2
  pub b3_fits : IsByte a.b3
  pub b4_fits : IsByte a.b4
  pub b5_fits : IsByte a.b5

abbrev pub address_bytes : EthernetAddress → List ℕ
address_bytes a = put_address [] a

-- An address is added behind what is there.
pub put_address-append : (s : List ℕ) (a : EthernetAddress) → put_address s a ≡ s ++ address_bytes a
unfolding put_address put_u8
put_address-append s a = simp append_assoc

pub parse_address_ok :
    (a : EthernetAddress) (rest : List ℕ) (p : NetParser)
    → AddressFits a
    → Has p (address_bytes a ++ rest)
    → (p' : NetParser) × (parse_address p ≡ ok (a, p')) × Has p' rest
unfolding parse_address put_address put_u8
parse_address_ok a rest p v has =
    let (p0, e0, h0) = u8-unparse_int a.b0 _ p v.b0_fits has in
    let (p1, e1, h1) = u8-unparse_int a.b1 _ p0 v.b1_fits h0 in
    let (p2, e2, h2) = u8-unparse_int a.b2 _ p1 v.b2_fits h1 in
    let (p3, e3, h3) = u8-unparse_int a.b3 _ p2 v.b3_fits h2 in
    let (p4, e4, h4) = u8-unparse_int a.b4 _ p3 v.b4_fits h3 in
    let (p5, e5, h5) = u8-unparse_int a.b5 rest p4 v.b5_fits h4 in
    (p5, rw (e0, e1, e2, e3, e4, e5), h5)

pub record Fits (h : EthernetHeader) : Type 0 where
  pub dst_fits : AddressFits h.dst
  pub src_fits : AddressFits h.src
  pub type_fits : IsU16 h.ether_type

serialize-append :
    (h : EthernetHeader) (rest : List ℕ)
    → serialize h ++ rest
      ≡ address_bytes h.dst ++ (address_bytes h.src ++ (unparse_int 2 h.ether_type ++ rest))
unfolding serialize put_address put_u8 put_u16
serialize-append h rest = refl

pub length-serialize : (h : EthernetHeader) → length (serialize h) ≡ header_length
unfolding serialize put_address put_u8 put_u16
length-serialize h = refl

-- A header that fits is read back from its bytes, and what lies behind stays.
pub parse-serialize_header :
    (g h : EthernetHeader) (rest : List ℕ) (p : NetParser)
    → Fits h
    → Has p (serialize h ++ rest)
    → (p' : NetParser) × (parse g p ≡ ok (no_error, h, p')) × Has p' rest
unfolding parse Buffer.size
parse-serialize_header g h rest p v has =
    let enough : ltb (length (Buffer.str p.buffer)) header_length ≡ false =
      ground (arith, ap length has.left, length-append (serialize h) rest, length-serialize h) in
    let (p1, e1, h1) =
      parse_address_ok h.dst _ p v.dst_fits (subst (Has p) (serialize-append h rest) has) in
    let (p2, e2, h2) = parse_address_ok h.src _ p1 v.src_fits h1 in
    let (p3, e3, h3) = u16-unparse_int h.ether_type rest p2 v.type_fits h2 in
    (p3, rw (enough, e1, e2, e3) (ap (λ r. ok (r, h, p3)) h3.fine), h3)
