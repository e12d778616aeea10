-- ===== src/Ipv4Header.antt =====
-- libsponge/tcp_helpers/ipv4_header.{hh,cc}: an IPv4 header.
pub mod Fields
pub mod RoundTrip
use cs144_sponge.Base.{
  ℕ, ◌+◌, ◌-◌, ◌*◌, ◌/◌, ◌%◌, ◌^◌, Bool, true, false, not, List, [], ltb, ◌==◌, if◌then◌else◌, take,
  u16, u32, sub64, Result, ok, err, runtime_error, ◌>>=◌,
}
use cs144_sponge.Buffer
use cs144_sponge.InternetChecksum
use cs144_sponge.NetParser
use cs144_sponge.NetParser.{
  NetParser, ParseResult, no_error, packet_too_short, wrong_ip_version, header_too_short,
  truncated_packet, bad_checksum, put_u8, put_u16, put_u32,
}
use cs144_sponge.TcpHeader.Wire.{flag, flag_bit, resize}

pub record Ipv4Header : Type 0 where
  pub ver : ℕ
  pub hlen : ℕ
  pub tos : ℕ
  pub len : ℕ
  pub id : ℕ
  pub df : Bool
  pub mf : Bool
  pub offset : ℕ
  pub ttl : ℕ
  pub proto : ℕ
  pub cksum : ℕ
  pub src : ℕ
  pub dst : ℕ

-- `IPv4Header::LENGTH`
abbrev pub header_length : ℕ
header_length = 20

abbrev pub default_ttl : ℕ
default_ttl = 128

abbrev pub proto_tcp : ℕ
proto_tcp = 6

-- `IPv4Header{}`
abbrev pub default_header : Ipv4Header
default_header = record {
  ver = 4;
  hlen = 5;
  tos = 0;
  len = 0;
  id = 0;
  df = true;
  mf = false;
  offset = 0;
  ttl = default_ttl;
  proto = proto_tcp;
  cksum = 0;
  src = 0;
  dst = 0;
}

-- The fixed fields in three parts: the words before the fragment, the fragment with what follows it up
-- to the checksum, and the addresses.
pub parse_lengths : Ipv4Header → NetParser → Result (Ipv4Header × NetParser)
parse_lengths h p = NetParser.u8 p >>= λ first. NetParser.u8 first.1 >>= λ tos.
    NetParser.u16 tos.1 >>= λ len. NetParser.u16 len.1 >>= λ id. ok (
      record h {
        ver = first.0 / 2 ^ 4;
        hlen = first.0 % 2 ^ 4;
        tos = tos.0;
        len = len.0;
        id = id.0;
      },
      id.1,
    )

pub parse_fragment : Ipv4Header → NetParser → Result (Ipv4Header × NetParser)
parse_fragment h p = NetParser.u16 p >>= λ fo_val. NetParser.u8 fo_val.1 >>= λ ttl.
    NetParser.u8 ttl.1 >>= λ proto. NetParser.u16 proto.1 >>= λ cksum. ok (
      record h {
        df = flag fo_val.0 16384;
        mf = flag fo_val.0 8192;
        offset = fo_val.0 % 8192;
        ttl = ttl.0;
        proto = proto.0;
        cksum = cksum.0;
      },
      cksum.1,
    )

pub parse_addresses : Ipv4Header → NetParser → Result (Ipv4Header × NetParser)
parse_addresses h p = NetParser.u32 p >>= λ src.
    NetParser.u32 src.1 >>= λ dst. ok (record h { src = src.0; dst = dst.0 }, dst.1)

pub parse_fields : Ipv4Header → NetParser → Result (Ipv4Header × NetParser)
parse_fields h p =
    parse_lengths h p >>= λ a. parse_fragment a.0 a.1 >>= λ b. parse_addresses b.0 b.1

-- The checks on the fields, in their order; `no_error` if all pass.
pub check_fields : ℕ → Ipv4Header → ParseResult
check_fields data_size h =
    if ltb data_size (4 * h.hlen)
    then packet_too_short
    else if not (h.ver == 4)
    then wrong_ip_version
    else if ltb h.hlen 5
    then header_too_short
    else if not (data_size == h.len)
    then truncated_packet
    else no_error

-- The options are skipped and the checksum of the header is tested; `original` are the bytes from its
-- first one on.
pub finish : List ℕ → Ipv4Header → NetParser → Result (ParseResult × Ipv4Header × NetParser)
finish original h p = NetParser.remove_prefix (h.hlen * 4 - header_length) p >>= λ q.
    if NetParser.error q
    then ok (q.parse_error, h, q)
    else (InternetChecksum.value
          (InternetChecksum.add (take (4 * h.hlen) original) (InternetChecksum.new 0))
        >>= λ v. ok (if v == 0 then no_error else bad_checksum, h, q))

-- The outcome, the header with the fields that were read, and the parser.
unfoldable pub parse : Ipv4Header → NetParser → Result (ParseResult × Ipv4Header × NetParser)
parse h p =
    if ltb (Buffer.size p.buffer) header_length
    then ok (packet_too_short, h, p)
    else (parse_fields h p >>= λ r.
        let checked = check_fields (Buffer.size p.buffer) r.0 in
        if NetParser.is_error checked
        then ok (checked, r.0, r.1)
        else finish (Buffer.str p.buffer) r.0 r.1)

unfoldable pub put_lengths : List ℕ → Ipv4Header → List ℕ
put_lengths s h =
    put_u16 (put_u16 (put_u8 (put_u8 s ((h.ver * 2 ^ 4) % 2 ^ 8 + h.hlen % 2 ^ 4)) h.tos) h.len)
      h.id

unfoldable pub put_fragment : List ℕ → Ipv4Header → List ℕ
put_fragment s h =
    let fo_val = flag_bit h.df 16384 + flag_bit h.mf 8192 + h.offset % 8192 in
    put_u16 (put_u8 (put_u8 (put_u16 s fo_val) h.ttl) h.proto) h.cksum

unfoldable pub put_addresses : List ℕ → Ipv4Header → List ℕ
put_addresses s h = put_u32 (put_u32 s h.src) h.dst

unfoldable pub put_fields : Ipv4Header → List ℕ
put_fields h = put_addresses (put_fragment (put_lengths [] h) h) h

unfoldable pub serialize : Ipv4Header → Result (List ℕ)
serialize h =
    if not (h.ver == 4)
    then err runtime_error
    else if ltb (4 * h.hlen) header_length
    then err runtime_error
    else ok (resize (4 * h.hlen) (put_fields h))

unfoldable pub payload_length : Ipv4Header → ℕ
payload_length h = u16 (h.len + 2 ^ 16 - (4 * h.hlen) % 2 ^ 16)

unfoldable pub pseudo_cksum : Ipv4Header → ℕ
pseudo_cksum h =
    let source = h.src / 2 ^ 16 + h.src % 2 ^ 16 in
    let destination = h.dst / 2 ^ 16 + h.dst % 2 ^ 16 in
    source + destination + h.proto + payload_length h
