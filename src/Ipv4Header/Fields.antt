-- ===== src/Ipv4Header/Fields.antt =====
-- The fixed fields of an IPv4 header are read back, and their sum.
use cs144_sponge.Base.{
  ℕ, ◌+◌, ◌*◌, ◌/◌, ◌%◌, ◌^◌, ◌≤◌, ◌<◌, ◌≡◌, refl, subst, Bool, false, List, ◌++◌, arith, length,
  ok, IsU16, IsU32, IsByte,
}
use cs144_sponge.InternetChecksum.Sum.{word_sum}
use cs144_sponge.NetParser.{NetParser, unparse_int, put_u8, put_u16, put_u32}
use cs144_sponge.NetParser.RoundTrip.{Has, u8-unparse_int, u16-unparse_int, u32-unparse_int}
use cs144_sponge.TcpHeader.Wire.{flag, flag_bit}
use cs144_sponge.Ipv4Header.{
  Ipv4Header, parse_lengths, parse_fragment, parse_addresses, parse_fields, put_lengths,
  put_fragment, put_addresses, put_fields,
}

-- Each field fits its width, the version is 4, and the header is not shorter than its fixed fields.
pub record Fits (h : Ipv4Header) : Type 0 where
  pub version : h.ver ≡ 4
  pub hlen_low : 5 ≤ h.hlen
  pub hlen_high : h.hlen < 16
  pub tos_fits : IsByte h.tos
  pub len_fits : IsU16 h.len
  pub id_fits : IsU16 h.id
  pub offset_fits : h.offset < 2 ^ 13
  pub ttl_fits : IsByte h.ttl
  pub proto_fits : IsByte h.proto
  pub cksum_fits : IsU16 h.cksum
  pub src_fits : IsU32 h.src
  pub dst_fits : IsU32 h.dst

first_byte : Ipv4Header → ℕ
first_byte h = (h.ver * 2 ^ 4) % 2 ^ 8 + h.hlen % 2 ^ 4

fo_val : Ipv4Header → ℕ
fo_val h = flag_bit h.df 16384 + flag_bit h.mf 8192 + h.offset % 8192

lengths : Ipv4Header → List ℕ → List ℕ
lengths h rest =
    unparse_int 1 (first_byte h)
    ++ (unparse_int 1 h.tos ++ (unparse_int 2 h.len ++ (unparse_int 2 h.id ++ rest)))

fragment : Ipv4Header → List ℕ → List ℕ
fragment h rest =
    unparse_int 2 (fo_val h)
    ++ (unparse_int 1 h.ttl ++ (unparse_int 1 h.proto ++ (unparse_int 2 h.cksum ++ rest)))

addresses : Ipv4Header → List ℕ → List ℕ
addresses h rest = unparse_int 4 h.src ++ (unparse_int 4 h.dst ++ rest)

first_read :
    (h : Ipv4Header)
    → Fits h
    → (first_byte h < 2 ^ 8) × (first_byte h / 2 ^ 4 ≡ h.ver) × (first_byte h % 2 ^ 4 ≡ h.hlen)
unfolding first_byte
first_read h v = ground (arith, v.version, v.hlen_high)

flags_read :
    (a b : Bool) (o : ℕ) {n : ℕ}
    → o < 2 ^ 13
    → n ≡ flag_bit a 16384 + flag_bit b 8192 + o % 8192
    → (n < 2 ^ 16) × (flag n 16384 ≡ a) × (flag n 8192 ≡ b) × (n % 8192 ≡ o)
flags_read a b o h e = ground (arith, h, e)

parse_lengths_ok :
    (g h : Ipv4Header) (rest : List ℕ) (p : NetParser)
    → Fits h
    → Has p (lengths h rest)
    → (p' : NetParser) × (parse_lengths g p
        ≡ ok (record g { ver = h.ver; hlen = h.hlen; tos = h.tos; len = h.len; id = h.id }, p'))
      × Has p' rest
unfolding parse_lengths lengths
parse_lengths_ok g h rest p v has =
    let (lt, ver, hlen) = first_read h v in
    let (p1, e1, h1) = u8-unparse_int (first_byte h) _ p lt has in
    let (p2, e2, h2) = u8-unparse_int h.tos _ p1 v.tos_fits h1 in
    let (p3, e3, h3) = u16-unparse_int h.len _ p2 v.len_fits h2 in
    let (p4, e4, h4) = u16-unparse_int h.id rest p3 v.id_fits h3 in
    (p4, rw (e1, e2, e3, e4, ver, hlen), h4)

parse_fragment_ok :
    (g h : Ipv4Header) (rest : List ℕ) (p : NetParser)
    → Fits h
    → Has p (fragment h rest)
    → (p' : NetParser) × (parse_fragment g p
        ≡ ok (
          record g {
            df = h.df;
            mf = h.mf;
            offset = h.offset;
            ttl = h.ttl;
            proto = h.proto;
            cksum = h.cksum;
          },
          p',
        ))
      × Has p' rest
unfolding parse_fragment fragment
parse_fragment_ok g h rest p v has =
    let (lt, df, mf, offset) =
      flags_read h.df h.mf h.offset {n = fo_val h} v.offset_fits (unfold fo_val in refl) in
    let (p1, e1, h1) = u16-unparse_int (fo_val h) _ p lt has in
    let (p2, e2, h2) = u8-unparse_int h.ttl _ p1 v.ttl_fits h1 in
    let (p3, e3, h3) = u8-unparse_int h.proto _ p2 v.proto_fits h2 in
    let (p4, e4, h4) = u16-unparse_int h.cksum rest p3 v.cksum_fits h3 in
    (p4, rw (e1, e2, e3, e4, df, mf, offset), h4)

parse_addresses_ok :
    (g h : Ipv4Header) (rest : List ℕ) (p : NetParser)
    → Fits h
    → Has p (addresses h rest)
    → (p' : NetParser) × (parse_addresses g p ≡ ok (record g { src = h.src; dst = h.dst }, p'))
      × Has p' rest
unfolding parse_addresses addresses
parse_addresses_ok g h rest p v has =
    let (p1, e1, h1) = u32-unparse_int h.src _ p v.src_fits has in
    let (p2, e2, h2) = u32-unparse_int h.dst rest p1 v.dst_fits h1 in (p2, rw (e1, e2), h2)

put_fields-append :
    (h : Ipv4Header) (rest : List ℕ)
    → put_fields h ++ rest ≡ lengths h (fragment h (addresses h rest))
unfolding put_fields put_lengths put_fragment put_addresses put_u8 put_u16 put_u32 lengths fragment
    addresses first_byte fo_val
put_fields-append h rest = refl

pub parse_fields_ok :
    (g h : Ipv4Header) (rest : List ℕ) (p : NetParser)
    → Fits h
    → Has p (put_fields h ++ rest)
    → (p' : NetParser) × (parse_fields g p ≡ ok (h, p')) × Has p' rest
unfolding parse_fields
parse_fields_ok g h rest p v has =
    let (p1, e1, h1) = parse_lengths_ok g h _ p v (subst (Has p) (put_fields-append h rest) has) in
    let g1 : Ipv4Header = record g {
      ver = h.ver;
      hlen = h.hlen;
      tos = h.tos;
      len = h.len;
      id = h.id;
    } in
    let (p2, e2, h2) = parse_fragment_ok g1 h _ p1 v h1 in
    let g2 : Ipv4Header = record g1 {
      df = h.df;
      mf = h.mf;
      offset = h.offset;
      ttl = h.ttl;
      proto = h.proto;
      cksum = h.cksum;
    } in
    let (p3, e3, h3) = parse_addresses_ok g2 h rest p2 v h2 in (p3, rw (e1, e2, e3), h3)

-- However large the fields are, every byte is below 2^8.
pub put_fields-bound : (h : Ipv4Header) → word_sum false (put_fields h) < 2 ^ 24
unfolding put_fields put_lengths put_fragment put_addresses put_u8 put_u16 put_u32
put_fields-bound h = omega arith

pub put_fields-length : (h : Ipv4Header) → length (put_fields h) ≡ 20
unfolding put_fields put_lengths put_fragment put_addresses put_u8 put_u16 put_u32
put_fields-length h = refl

-- The checksum field is a word of the header, and enters its sum as it is.
pub put_fields-word_sum :
    (h : Ipv4Header) (c : ℕ)
    → IsU16 c
    → word_sum false (put_fields (record h { cksum = c }))
      ≡ word_sum false (put_fields (record h { cksum = 0 })) + c
unfolding put_fields put_lengths put_fragment put_addresses put_u8 put_u16 put_u32
put_fields-word_sum h c lt = omega (arith, lt)
