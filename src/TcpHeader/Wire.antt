-- ===== src/TcpHeader/Wire.antt =====
-- libsponge/tcp_helpers/tcp_header.cc: a TCP header on the wire.
pub mod Fields
pub mod RoundTrip
use cs144_sponge.Base.{
  ℕ, ◌+◌, ◌-◌, ◌*◌, ◌/◌, ◌%◌, ◌^◌, Bool, List, [], ◌++◌, ltb, ◌==◌, if◌then◌else◌, length, take,
  replicate, Result, ok, err, runtime_error, ◌>>=◌,
}
use cs144_sponge.NetParser
use cs144_sponge.NetParser.{NetParser, ParseResult, header_too_short, put_u8, put_u16, put_u32}
use cs144_sponge.TcpHeader.{TcpHeader, header_length}

-- A bit of the byte with the flags: `fl_b & bit`.
abbrev pub flag : ℕ → ℕ → Bool
flag fl_b bit = (fl_b / bit) % 2 == 1

abbrev pub flag_bit : Bool → ℕ → ℕ
flag_bit b bit = if b then bit else 0

-- The fixed fields in three parts: the numbers, the byte with the offset and that with the flags, and
-- the fields behind.
pub parse_numbers : TcpHeader → NetParser → Result (TcpHeader × NetParser)
parse_numbers h p = NetParser.u16 p >>= λ sport. NetParser.u16 sport.1 >>= λ dport.
    NetParser.u32 dport.1 >>= λ seqno. NetParser.u32 seqno.1 >>= λ ackno.
    ok (record h { sport = sport.0; dport = dport.0; seqno = seqno.0; ackno = ackno.0 }, ackno.1)

pub parse_flags : TcpHeader → NetParser → Result (TcpHeader × NetParser)
parse_flags h p = NetParser.u8 p >>= λ off. NetParser.u8 off.1 >>= λ fl_b. ok (
  record h {
    doff = off.0 / 2 ^ 4;
    urg = flag fl_b.0 32;
    ack = flag fl_b.0 16;
    psh = flag fl_b.0 8;
    rst = flag fl_b.0 4;
    syn = flag fl_b.0 2;
    fin = flag fl_b.0 1;
  },
  fl_b.1,
)

pub parse_tail : TcpHeader → NetParser → Result (TcpHeader × NetParser)
parse_tail h p = NetParser.u16 p >>= λ win. NetParser.u16 win.1 >>= λ cksum.
    NetParser.u16 cksum.1 >>= λ uptr.
    ok (record h { win = win.0; cksum = cksum.0; uptr = uptr.0 }, uptr.1)

pub parse_fields : TcpHeader → NetParser → Result (TcpHeader × NetParser)
parse_fields h p = parse_numbers h p >>= λ a. parse_flags a.0 a.1 >>= λ b. parse_tail b.0 b.1

-- The outcome, the header and the parser. Options behind the fixed fields are skipped.
unfoldable pub parse : TcpHeader → NetParser → Result (ParseResult × TcpHeader × NetParser)
parse h p = parse_fields h p >>= λ r.
    if ltb r.0.doff 5
    then ok (header_too_short, r.0, r.1)
    else (NetParser.remove_prefix (r.0.doff * 4 - header_length) r.1 >>= λ q.
        ok (q.parse_error, r.0, q))

pub flags_byte : TcpHeader → ℕ
flags_byte h =
    flag_bit h.urg 32
    + flag_bit h.ack 16
    + flag_bit h.psh 8
    + flag_bit h.rst 4
    + flag_bit h.syn 2
    + flag_bit h.fin 1

pub put_numbers : List ℕ → TcpHeader → List ℕ
put_numbers s h = put_u32 (put_u32 (put_u16 (put_u16 s h.sport) h.dport) h.seqno) h.ackno

pub put_flags : List ℕ → TcpHeader → List ℕ
put_flags s h = put_u8 (put_u8 s ((h.doff * 2 ^ 4) % 2 ^ 8)) (flags_byte h)

pub put_tail : List ℕ → TcpHeader → List ℕ
put_tail s h = put_u16 (put_u16 (put_u16 s h.win) h.cksum) h.uptr

pub put_fields : TcpHeader → List ℕ
put_fields h = put_tail (put_flags (put_numbers [] h) h) h

-- `std::string::resize`
abbrev pub resize : ℕ → List ℕ → List ℕ
resize n s = take n s ++ replicate (n - length s) 0

unfoldable pub serialize : TcpHeader → Result (List ℕ)
serialize h = if ltb h.doff 5 then err runtime_error else ok (resize (4 * h.doff) (put_fields h))
