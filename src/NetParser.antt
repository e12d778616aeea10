-- ===== src/NetParser.antt =====
-- libsponge/util/parser.{hh,cc}: integers in network byte order.
pub mod RoundTrip
use cs144_sponge.Base.{
  ℕ, zero, suc, ◌+◌, ◌*◌, ◌/◌, ◌%◌, ◌^◌, Bool, true, false, not, List, [], ◌∷◌, ◌++◌, ltb,
  if◌then◌else◌, Result, ok, ◌>>=◌,
}
use cs144_sponge.Buffer
use cs144_sponge.Buffer.{Buffer}

pub data ParseResult : Type 0 where
  no_error bad_checksum packet_too_short wrong_ip_version : ParseResult
  header_too_short truncated_packet unsupported : ParseResult

pub record NetParser : Type 0 where
  pub buffer : Buffer
  pub parse_error : ParseResult

unfoldable pub new : Buffer → NetParser
new b = record { buffer = b; parse_error = no_error }

abbrev pub is_error : ParseResult → Bool
is_error no_error = false
is_error _ = true

unfoldable pub error : NetParser → Bool
error p = is_error p.parse_error

pub check_size : ℕ → NetParser → NetParser
check_size size p =
    if ltb (Buffer.size p.buffer) size then record p { parse_error = packet_too_short } else p

-- The loop of `_parse_int` over `count` bytes from place `i`, in a type of `w` bits.
pub parse_from : ℕ → Buffer → ℕ → ℕ → ℕ → Result ℕ
parse_from w b zero i ret = ok ret
parse_from w b (suc count) i ret =
    Buffer.at b i >>= λ x. parse_from w b count (i + 1) ((ret * 2 ^ 8 + x) % 2 ^ w)

-- `_parse_int` for a type of `len` bytes.
pub parse_int : ℕ → NetParser → Result (ℕ × NetParser)
parse_int len p =
    let q = check_size len p in
    if error q
    then ok (0, q)
    else (parse_from (8 * len) q.buffer len 0 0 >>= λ ret.
        Buffer.remove_prefix q.buffer len >>= λ b. ok (ret, record q { buffer = b }))

unfoldable pub u32 : NetParser → Result (ℕ × NetParser)
u32 p = parse_int 4 p

unfoldable pub u16 : NetParser → Result (ℕ × NetParser)
u16 p = parse_int 2 p

unfoldable pub u8 : NetParser → Result (ℕ × NetParser)
u8 p = parse_int 1 p

unfoldable pub remove_prefix : ℕ → NetParser → Result NetParser
remove_prefix n p =
    let q = check_size n p in
    if error q
    then ok q
    else (Buffer.remove_prefix q.buffer n >>= λ b. ok (record q { buffer = b }))

-- `_unparse_int`: the bytes from the most significant one.
abbrev pub unparse_int : ℕ → ℕ → List ℕ
unparse_int zero val = []
unparse_int (suc k) val = (val / 2 ^ (8 * k)) % 2 ^ 8 ∷ unparse_int k val

unfoldable pub put_u32 : List ℕ → ℕ → List ℕ
put_u32 s val = s ++ unparse_int 4 val

unfoldable pub put_u16 : List ℕ → ℕ → List ℕ
put_u16 s val = s ++ unparse_int 2 val

unfoldable pub put_u8 : List ℕ → ℕ → List ℕ
put_u8 s val = s ++ unparse_int 1 val
