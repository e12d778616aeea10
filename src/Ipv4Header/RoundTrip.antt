-- ===== src/Ipv4Header/RoundTrip.antt =====
-- An IPv4 header on the wire, with its checksum.
use cs144_sponge.Base.{
  ℕ, ◌+◌, ◌-◌, ◌*◌, ◌≤◌, ◌<◌, ◌^◌, ◌≡◌, refl, sym, ap, ◌∙◌, true, false, List, ◌++◌, arith, length,
  take, replicate, drop-replicate_append, take-append_left, ok, take_all, length-append,
  length-replicate, append_assoc, IsU16, ltb, ◌==◌, if◌then◌else◌,
}
use cs144_sponge.Buffer
use cs144_sponge.Buffer.Laws.{str-of_string}
use cs144_sponge.InternetChecksum
use cs144_sponge.InternetChecksum.Sum.{
  parity_after, word_sum, word_sum-append, word_sum-zeros, residue, add-word_sum, value-residue,
  residue-complement,
}
use cs144_sponge.NetParser
use cs144_sponge.NetParser.{NetParser, ParseResult, no_error, bad_checksum}
use cs144_sponge.NetParser.RoundTrip.{Has, remove_prefix-Has, error-fine}
use cs144_sponge.TcpHeader.Wire.{resize}
use cs144_sponge.Ipv4Header.{Ipv4Header, parse, check_fields, finish, put_fields, serialize}
use cs144_sponge.Ipv4Header.Fields.{
  Fits, parse_fields_ok, put_fields-length, put_fields-word_sum, put_fields-bound,
}

-- The bytes that are written for a header.
abbrev pub bytes : Ipv4Header → List ℕ
bytes h = put_fields h ++ replicate (4 * h.hlen - 20) 0

-- A header that fits is written without an exception.
pub serialize-bytes : (h : Ipv4Header) → Fits h → serialize h ≡ ok (bytes h)
unfolding serialize
serialize-bytes h v =
    let long : length (put_fields h) ≤ 4 * h.hlen =
      omega (arith, put_fields-length h, v.hlen_low) in
    let e : resize (4 * h.hlen) (put_fields h) ≡ bytes h =
      rw (take_all (4 * h.hlen) (put_fields h) long, put_fields-length h) in
    let a : (h.ver == 4) ≡ true = ground (arith, v.version) in
    let b : ltb (4 * h.hlen) 20 ≡ false = ground (arith, v.hlen_low) in rw (a, b) (ap ok e)

pub length-bytes : (h : Ipv4Header) → Fits h → length (bytes h) ≡ 4 * h.hlen
length-bytes h v =
    length-append (put_fields h) _
    ∙ omega (arith, put_fields-length h, length-replicate {A = ℕ} (4 * h.hlen - 20) 0, v.hlen_low)

word_sum-bytes : (h : Ipv4Header) → word_sum false (bytes h) ≡ word_sum false (put_fields h)
word_sum-bytes h =
    word_sum-append false (put_fields h) _
    ∙ omega (arith, word_sum-zeros (4 * h.hlen - 20) (parity_after false (put_fields h)))

-- The checksum over the bytes of a header.
pub checksum-bytes :
    (h : Ipv4Header)
    → InternetChecksum.value (InternetChecksum.add (bytes h) (InternetChecksum.new 0))
      ≡ ok (65535 - residue (word_sum false (put_fields h)))
unfolding InternetChecksum.new
checksum-bytes h =
    let small : word_sum false (bytes h) < 2 ^ 32 =
      omega (arith, word_sum-bytes h, put_fields-bound h) in
    ap InternetChecksum.value
      (add-word_sum (bytes h) (record { sum = 0; parity = false }) (omega (arith, small)))
    ∙ value-residue _ (omega (arith, small))
    ∙ ap (λ n. ok (65535 - residue n)) (omega (arith, word_sum-bytes h))

-- What `parse` makes of the checksum of a header.
abbrev pub verdict : Ipv4Header → ParseResult
verdict h = if 65535 - residue (word_sum false (put_fields h)) == 0 then no_error else bad_checksum

written :
    (h : Ipv4Header) (rest : List ℕ)
    → Has
        (NetParser.new (Buffer.of_string (bytes h ++ rest)))
        (put_fields h ++ (replicate (4 * h.hlen - 20) 0 ++ rest))
unfolding NetParser.new
written h rest = record {
  left = str-of_string _ ∙ append_assoc (put_fields h) (replicate (4 * h.hlen - 20) 0) rest;
  fine = refl;
}

check_fields_pass :
    (h : Ipv4Header) (n : ℕ) → Fits h → h.len ≡ n → 4 * h.hlen ≤ n → check_fields n h ≡ no_error
unfolding check_fields
check_fields_pass h n v e l = ground (arith, v.version, v.hlen_low)

finish_ok :
    (h : Ipv4Header) (rest : List ℕ) (p : NetParser)
    → Fits h
    → Has p (replicate (4 * h.hlen - 20) 0 ++ rest)
    → (q : NetParser) × (finish (bytes h ++ rest) h p ≡ ok (verdict h, h, q)) × Has q rest
unfolding finish
finish_ok h rest p v has =
    let pad : List ℕ = replicate (4 * h.hlen - 20) 0 in
    let n : h.hlen * 4 - 20 ≡ 4 * h.hlen - 20 = omega arith in
    let long : 4 * h.hlen - 20 ≤ length (pad ++ rest) =
      omega (arith, length-append pad rest, length-replicate {A = ℕ} (4 * h.hlen - 20) 0) in
    let (q, r, k) = remove_prefix-Has (4 * h.hlen - 20) (pad ++ rest) p has long in
    let front : take (4 * h.hlen) (bytes h ++ rest) ≡ bytes h =
      take-append_left (bytes h) rest (sym (length-bytes h v)) in
    (
      q,
      rw (
        ap (λ m. NetParser.remove_prefix m p) n ∙ r,
        error-fine q k.fine,
        front,
        checksum-bytes h,
      ),
      record { left = k.left ∙ drop-replicate_append (4 * h.hlen - 20) 0 rest; fine = k.fine },
    )

start_size :
    (h : Ipv4Header) (rest : List ℕ)
    → Fits h
    → Buffer.size (NetParser.new (Buffer.of_string (bytes h ++ rest))).buffer
      ≡ 4 * h.hlen + length rest
unfolding NetParser.new Buffer.size
start_size h rest v =
    ap length (str-of_string (bytes h ++ rest))
    ∙ length-append (bytes h) rest
    ∙ omega (arith, length-bytes h v)

start_str :
    (h : Ipv4Header) (rest : List ℕ)
    → Buffer.str (NetParser.new (Buffer.of_string (bytes h ++ rest))).buffer ≡ bytes h ++ rest
unfolding NetParser.new
start_str h rest = str-of_string (bytes h ++ rest)

-- The bytes of a header that fits, with as many behind them as it says, are read as that header; the
-- checksum alone decides between success and `bad_checksum`, and either way the parser has passed the
-- header and has noted no error.
pub parse-bytes :
    (g h : Ipv4Header) (rest : List ℕ)
    → Fits h
    → h.len ≡ 4 * h.hlen + length rest
    → (p : NetParser) × (parse g (NetParser.new (Buffer.of_string (bytes h ++ rest)))
        ≡ ok (verdict h, h, p))
      × Has p rest
unfolding parse
parse-bytes g h rest v total =
    let (p, e, has) = parse_fields_ok g h _ _ v (written h rest) in
    let (q, f, k) = finish_ok h rest p v has in
    let enough : ltb (4 * h.hlen + length rest) 20 ≡ false = ground (arith, v.hlen_low) in
    let pass : check_fields (4 * h.hlen + length rest) h ≡ no_error =
      check_fields_pass h _ v total (omega arith) in
    (q, rw (start_size h rest v, start_str h rest, enough, e, pass, f), k)

pub with_cksum-Fits : (h : Ipv4Header) (c : ℕ) → IsU16 c → Fits h → Fits (record h { cksum = c })
with_cksum-Fits h c lt v = record {
  version = v.version;
  hlen_low = v.hlen_low;
  hlen_high = v.hlen_high;
  tos_fits = v.tos_fits;
  len_fits = v.len_fits;
  id_fits = v.id_fits;
  offset_fits = v.offset_fits;
  ttl_fits = v.ttl_fits;
  proto_fits = v.proto_fits;
  cksum_fits = lt;
  src_fits = v.src_fits;
  dst_fits = v.dst_fits;
}

-- The checksum that is computed for a header with the field at 0.
abbrev pub right_cksum : Ipv4Header → ℕ
right_cksum h = 65535 - residue (word_sum false (put_fields (record h { cksum = 0 })))

verdict_right : (h : Ipv4Header) → verdict (record h { cksum = right_cksum h }) ≡ no_error
verdict_right h =
    let c : ℕ = right_cksum h in
    let lt : c < 2 ^ 16 = omega arith in
    let z : 65535 - residue (word_sum false (put_fields (record h { cksum = c }))) ≡ 0 =
      ap (λ n. 65535 - residue n) (put_fields-word_sum h c lt) ∙ residue-complement _ in
    ap (λ n. if n == 0 then no_error else bad_checksum) z

-- A header that fits, written with the checksum that is computed over it with the field at 0, is read
-- back without an error, and the bytes behind it stay.
pub header_round_trip :
    (g h : Ipv4Header) (rest : List ℕ)
    → Fits h
    → h.len ≡ 4 * h.hlen + length rest
    → (zeroed s : List ℕ) × (c : ℕ) × (p : NetParser) × (serialize (record h { cksum = 0 })
        ≡ ok zeroed)
      × (InternetChecksum.value (InternetChecksum.add zeroed (InternetChecksum.new 0)) ≡ ok c)
      × (serialize (record h { cksum = c }) ≡ ok s)
      × (parse g (NetParser.new (Buffer.of_string (s ++ rest)))
          ≡ ok (no_error, record h { cksum = c }, p))
      × Has p rest
header_round_trip g h rest v total =
    let h0 : Ipv4Header = record h { cksum = 0 } in
    let h1 : Ipv4Header = record h { cksum = right_cksum h } in
    let v1 : Fits h1 = with_cksum-Fits h (right_cksum h) (omega arith) v in
    let (p, e, k) = parse-bytes g h1 rest v1 total in
    (
      bytes h0,
      bytes h1,
      right_cksum h,
      p,
      serialize-bytes h0 (with_cksum-Fits h 0 (omega arith) v),
      checksum-bytes h0,
      serialize-bytes h1 v1,
      e ∙ ap (λ x. ok (x, h1, p)) (verdict_right h),
      k,
    )
