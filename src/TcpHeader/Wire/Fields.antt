-- ===== src/TcpHeader/Wire/Fields.antt =====
-- The fixed fields of a TCP header are read back, and their sum.
use cs144_sponge.Base.{
  ℕ, ◌+◌, ◌*◌, ◌/◌, ◌%◌, ◌^◌, ◌≤◌, ◌<◌, ◌≡◌, refl, subst, Bool, false, List, ◌++◌, arith, length,
  ok, IsU16, IsU32,
}
use cs144_sponge.InternetChecksum.Sum.{word_sum, parity_after}
use cs144_sponge.NetParser.{NetParser, unparse_int, put_u8, put_u16, put_u32}
use cs144_sponge.NetParser.RoundTrip.{Has, u8-unparse_int, u16-unparse_int, u32-unparse_int}
use cs144_sponge.TcpHeader.{TcpHeader}
use cs144_sponge.TcpHeader.Wire.{
  flag, flag_bit, flags_byte, parse_numbers, parse_flags, parse_tail, put_numbers, put_flags,
  put_tail, parse_fields, put_fields,
}

-- Each field fits its width, and the data offset is at least that of a header without options.
pub record Fits (h : TcpHeader) : Type 0 where
  pub sport_fits : IsU16 h.sport
  pub dport_fits : IsU16 h.dport
  pub seqno_fits : IsU32 h.seqno
  pub ackno_fits : IsU32 h.ackno
  pub doff_low : 5 ≤ h.doff
  pub doff_high : h.doff < 16
  pub win_fits : IsU16 h.win
  pub cksum_fits : IsU16 h.cksum
  pub uptr_fits : IsU16 h.uptr

flags_read :
    (a b c d e f : Bool) {n : ℕ}
    → n ≡ flag_bit a 32 + flag_bit b 16 + flag_bit c 8 + flag_bit d 4 + flag_bit e 2 + flag_bit f 1
    → (flag n 32 ≡ a)
      × (flag n 16 ≡ b)
      × (flag n 8 ≡ c)
      × (flag n 4 ≡ d)
      × (flag n 2 ≡ e)
      × (flag n 1 ≡ f)
flags_read a b c d e f h = ground (arith, h)

flags_byte-lt : (h : TcpHeader) → flags_byte h < 2 ^ 8
unfolding flags_byte
flags_byte-lt h = ground arith

numbers : TcpHeader → List ℕ → List ℕ
numbers h rest =
    unparse_int 2 h.sport
    ++ (unparse_int 2 h.dport ++ (unparse_int 4 h.seqno ++ (unparse_int 4 h.ackno ++ rest)))

flags : TcpHeader → List ℕ → List ℕ
flags h rest = unparse_int 1 ((h.doff * 2 ^ 4) % 2 ^ 8) ++ (unparse_int 1 (flags_byte h) ++ rest)

tail : TcpHeader → List ℕ → List ℕ
tail h rest = unparse_int 2 h.win ++ (unparse_int 2 h.cksum ++ (unparse_int 2 h.uptr ++ rest))

parse_numbers_ok :
    (g h : TcpHeader) (rest : List ℕ) (p : NetParser)
    → Fits h
    → Has p (numbers h rest)
    → (p' : NetParser) × (parse_numbers g p
        ≡ ok (record g { sport = h.sport; dport = h.dport; seqno = h.seqno; ackno = h.ackno }, p'))
      × Has p' rest
unfolding parse_numbers numbers
parse_numbers_ok g h rest p v has =
    let (p1, e1, h1) = u16-unparse_int h.sport _ p v.sport_fits has in
    let (p2, e2, h2) = u16-unparse_int h.dport _ p1 v.dport_fits h1 in
    let (p3, e3, h3) = u32-unparse_int h.seqno _ p2 v.seqno_fits h2 in
    let (p4, e4, h4) = u32-unparse_int h.ackno rest p3 v.ackno_fits h3 in
    (p4, rw (e1, e2, e3, e4), h4)

parse_flags_ok :
    (g h : TcpHeader) (rest : List ℕ) (p : NetParser)
    → Fits h
    → Has p (flags h rest)
    → (p' : NetParser) × (parse_flags g p
        ≡ ok (
          record g {
            doff = h.doff;
            urg = h.urg;
            ack = h.ack;
            psh = h.psh;
            rst = h.rst;
            syn = h.syn;
            fin = h.fin;
          },
          p',
        ))
      × Has p' rest
unfolding parse_flags flags
parse_flags_ok g h rest p v has =
    let (p5, e5, h5) = u8-unparse_int ((h.doff * 2 ^ 4) % 2 ^ 8) _ p (omega arith) has in
    let (p6, e6, h6) = u8-unparse_int (flags_byte h) rest p5 (flags_byte-lt h) h5 in
    let (f1, f2, f3, f4, f5, f6) =
      flags_read h.urg h.ack h.psh h.rst h.syn h.fin {n = flags_byte h}
        (unfold flags_byte in refl) in
    let d : (h.doff * 2 ^ 4) % 2 ^ 8 / 2 ^ 4 ≡ h.doff = omega (arith, v.doff_high) in
    (p6, rw (e5, e6, f1, f2, f3, f4, f5, f6, d), h6)

parse_tail_ok :
    (g h : TcpHeader) (rest : List ℕ) (p : NetParser)
    → Fits h
    → Has p (tail h rest)
    → (p' : NetParser) × (parse_tail g p
        ≡ ok (record g { win = h.win; cksum = h.cksum; uptr = h.uptr }, p'))
      × Has p' rest
unfolding parse_tail tail
parse_tail_ok g h rest p v has =
    let (p7, e7, h7) = u16-unparse_int h.win _ p v.win_fits has in
    let (p8, e8, h8) = u16-unparse_int h.cksum _ p7 v.cksum_fits h7 in
    let (p9, e9, h9) = u16-unparse_int h.uptr rest p8 v.uptr_fits h8 in (p9, rw (e7, e8, e9), h9)

put_fields-append :
    (h : TcpHeader) (rest : List ℕ) → put_fields h ++ rest ≡ numbers h (flags h (tail h rest))
unfolding put_fields put_numbers put_flags put_tail put_u8 put_u16 put_u32 numbers flags tail
put_fields-append h rest = refl

pub parse_fields_ok :
    (g h : TcpHeader) (rest : List ℕ) (p : NetParser)
    → Fits h
    → Has p (put_fields h ++ rest)
    → (p' : NetParser) × (parse_fields g p ≡ ok (h, p')) × Has p' rest
unfolding parse_fields
parse_fields_ok g h rest p v has =
    let (p1, e1, h1) = parse_numbers_ok g h _ p v (subst (Has p) (put_fields-append h rest) has) in
    let g1 : TcpHeader = record g {
      sport = h.sport;
      dport = h.dport;
      seqno = h.seqno;
      ackno = h.ackno;
    } in
    let (p2, e2, h2) = parse_flags_ok g1 h _ p1 v h1 in
    let g2 : TcpHeader = record g1 {
      doff = h.doff;
      urg = h.urg;
      ack = h.ack;
      psh = h.psh;
      rst = h.rst;
      syn = h.syn;
      fin = h.fin;
    } in
    let (p3, e3, h3) = parse_tail_ok g2 h rest p2 v h2 in (p3, rw (e1, e2, e3), h3)

pub put_fields-length : (h : TcpHeader) → length (put_fields h) ≡ 20
unfolding put_fields put_numbers put_flags put_tail put_u8 put_u16 put_u32
put_fields-length h = refl

-- However large the fields are, every byte is below 2^8.
pub put_fields-bound : (h : TcpHeader) → word_sum false (put_fields h) < 2 ^ 24
unfolding put_fields put_numbers put_flags put_tail put_u8 put_u16 put_u32
put_fields-bound h = omega arith

pub put_fields-even : (h : TcpHeader) → parity_after false (put_fields h) ≡ false
unfolding put_fields put_numbers put_flags put_tail put_u8 put_u16 put_u32
put_fields-even h = refl

-- The checksum field is a word of the header, and enters its sum as it is.
pub put_fields-word_sum :
    (h : TcpHeader) (c : ℕ)
    → IsU16 c
    → word_sum false (put_fields (record h { cksum = c }))
      ≡ word_sum false (put_fields (record h { cksum = 0 })) + c
unfolding put_fields put_numbers put_flags put_tail put_u8 put_u16 put_u32 flags_byte
put_fields-word_sum h c lt = omega (arith, lt)
