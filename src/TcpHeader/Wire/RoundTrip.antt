-- ===== src/TcpHeader/Wire/RoundTrip.antt =====
-- A TCP header that is written is read back.
use cs144_sponge.Base.{
  ℕ, ◌-◌, ◌*◌, ◌≤◌, ◌≡◌, refl, ap, ◌∙◌, false, List, ◌++◌, arith, length, replicate,
  drop-replicate_append, take_all, ok, length-append, length-replicate, append_assoc, ltb,
}
use cs144_sponge.Buffer
use cs144_sponge.Buffer.{Buffer}
use cs144_sponge.Buffer.Laws.{str-of_string}
use cs144_sponge.InternetChecksum.Sum.{
  word_sum, word_sum-append, word_sum-zeros, parity_after, parity_after-append, parity_after-zeros,
}
use cs144_sponge.NetParser
use cs144_sponge.NetParser.{NetParser, no_error}
use cs144_sponge.NetParser.RoundTrip.{Has, remove_prefix-Has}
use cs144_sponge.TcpHeader.{TcpHeader, default_header}
use cs144_sponge.TcpHeader.Wire.{parse, put_fields, resize, serialize}
use cs144_sponge.TcpHeader.Wire.Fields.{Fits, parse_fields_ok, put_fields-length, put_fields-even}

-- The bytes that are written for a header.
abbrev pub bytes : TcpHeader → List ℕ
bytes h = put_fields h ++ replicate (4 * h.doff - 20) 0

-- A header that fits is written without an exception.
pub serialize-bytes : (h : TcpHeader) → Fits h → serialize h ≡ ok (bytes h)
unfolding serialize
serialize-bytes h v =
    let long : length (put_fields h) ≤ 4 * h.doff =
      omega (arith, put_fields-length h, v.doff_low) in
    let e : resize (4 * h.doff) (put_fields h) ≡ bytes h =
      rw (take_all (4 * h.doff) (put_fields h) long, put_fields-length h) in
    let a : ltb h.doff 5 ≡ false = ground (arith, v.doff_low) in rw a (ap ok e)

pub length-bytes : (h : TcpHeader) → Fits h → length (bytes h) ≡ 4 * h.doff
length-bytes h v =
    length-append (put_fields h) _
    ∙ omega (arith, put_fields-length h, length-replicate {A = ℕ} (4 * h.doff - 20) 0, v.doff_low)

pub word_sum-bytes : (h : TcpHeader) → word_sum false (bytes h) ≡ word_sum false (put_fields h)
word_sum-bytes h =
    word_sum-append false (put_fields h) _
    ∙ omega (arith, word_sum-zeros (4 * h.doff - 20) (parity_after false (put_fields h)))

-- What follows a header begins a word.
pub bytes-even : (h : TcpHeader) → Fits h → parity_after false (bytes h) ≡ false
bytes-even h v =
    let n : 4 * h.doff - 20 ≡ 2 * (2 * h.doff - 10) = omega arith in
    parity_after-append false (put_fields h) _
    ∙ ap (λ b. parity_after b (replicate (4 * h.doff - 20) 0)) (put_fields-even h)
    ∙ ap (λ (k : ℕ). parity_after false (replicate k 0)) n
    ∙ parity_after-zeros (2 * h.doff - 10)

written :
    (h : TcpHeader) (rest : List ℕ) (b : Buffer)
    → Buffer.str b ≡ bytes h ++ rest
    → Has (NetParser.new b) (put_fields h ++ (replicate (4 * h.doff - 20) 0 ++ rest))
unfolding NetParser.new
written h rest b e = record {
  left = e ∙ append_assoc (put_fields h) (replicate (4 * h.doff - 20) 0) rest;
  fine = refl;
}

-- From the bytes of a header that fits, with any others behind them, that header is read without an
-- error, and the bytes behind it stay.
pub parse-bytes :
    (g h : TcpHeader) (rest : List ℕ) (b : Buffer)
    → Fits h
    → Buffer.str b ≡ bytes h ++ rest
    → (p : NetParser) × (parse g (NetParser.new b) ≡ ok (no_error, h, p)) × Has p rest
unfolding parse
parse-bytes g h rest b v w =
    let pad : List ℕ = replicate (4 * h.doff - 20) 0 in
    let n : h.doff * 4 - 20 ≡ 4 * h.doff - 20 = omega arith in
    let (q, e, has) = parse_fields_ok g h (pad ++ rest) _ v (written h rest b w) in
    let long : 4 * h.doff - 20 ≤ length (pad ++ rest) =
      omega (arith, length-append pad rest, length-replicate {A = ℕ} (4 * h.doff - 20) 0) in
    let (p, r, k) = remove_prefix-Has (4 * h.doff - 20) (pad ++ rest) q has long in
    let enough : ltb h.doff 5 ≡ false = ground (arith, v.doff_low) in
    (
      p,
      rw (e, enough, ap (λ m. NetParser.remove_prefix m q) n ∙ r) (ap (λ x. ok (x, h, p)) k.fine),
      record { left = k.left ∙ drop-replicate_append (4 * h.doff - 20) 0 rest; fine = k.fine },
    )

-- A header whose fields fit is written without an exception, as long as its data offset says; from
-- these bytes, with any others behind them, the same header is read without an error, and the bytes
-- behind it stay.
pub parse-serialize :
    (h : TcpHeader) (rest : List ℕ)
    → Fits h
    → (s : List ℕ) × (p : NetParser) × (serialize h ≡ ok s)
      × (length s ≡ 4 * h.doff)
      × (parse default_header (NetParser.new (Buffer.of_string (s ++ rest))) ≡ ok (no_error, h, p))
      × (Buffer.str p.buffer ≡ rest)
parse-serialize h rest v =
    let (p, e, k) =
      parse-bytes default_header h rest (Buffer.of_string (bytes h ++ rest)) v (str-of_string _) in
    (bytes h, p, serialize-bytes h v, length-bytes h v, e, k.left)
