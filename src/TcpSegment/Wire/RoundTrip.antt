-- ===== src/TcpSegment/Wire/RoundTrip.antt =====
-- A segment that is written is read back.
use cs144_sponge.Base.{
  ℕ, ◌+◌, ◌-◌, ◌*◌, ◌<◌, ◌^◌, ◌≡◌, refl, sym, ap, ◌∙◌, false, List, [], ◌∷◌, ◌++◌, arith, length,
  length-append, All, ok, IsByte, IsU16,
}
use cs144_sponge.Buffer
use cs144_sponge.Buffer.{Buffer}
use cs144_sponge.Buffer.Laws.{str-of_string}
use cs144_sponge.BufferList
use cs144_sponge.BufferList.Laws.{
  concatenate-append, concatenate-of_string, concatenate_one, concatenate-nil,
}
use cs144_sponge.InternetChecksum
use cs144_sponge.InternetChecksum.{InternetChecksum}
use cs144_sponge.InternetChecksum.Sum.{
  add-append, word_sum, word_sum-append, word_sum-le, residue, add-word_sum, value-residue,
  residue-complement,
}
use cs144_sponge.NetParser.{no_error}
use cs144_sponge.TcpHeader.{TcpHeader}
use cs144_sponge.TcpHeader.Wire.{put_fields}
use cs144_sponge.TcpHeader.Wire.Fields.{Fits, put_fields-bound, put_fields-word_sum}
use cs144_sponge.TcpHeader.Wire.RoundTrip.{
  length-bytes, bytes, serialize-bytes, parse-bytes, word_sum-bytes, bytes-even,
}
use cs144_sponge.TcpSegment.{TcpSegment}
use cs144_sponge.TcpSegment.Wire.{parse, serialize}

-- A segment that an IPv4 datagram can carry: its header fits, and header and payload have fewer than 2^16 bytes.
pub record IsCarried (seg : TcpSegment) : Type 0 where
  pub header_fits : Fits seg.header
  pub payload_fits : length (Buffer.str seg.payload) + 4 * seg.header.doff < 2 ^ 16
  pub payload_bytes : All IsByte (Buffer.str seg.payload)

-- The sum of the segment's words with the checksum field at 0.
abbrev pub zero_sum : TcpSegment → ℕ → ℕ
zero_sum seg pseudo =
    pseudo
    + word_sum false (put_fields (record (seg.header) { cksum = 0 }))
    + word_sum false (Buffer.str seg.payload)

abbrev pub right_cksum : TcpSegment → ℕ → ℕ
right_cksum seg pseudo = 65535 - residue (zero_sum seg pseudo)

with_cksum-Fits : (h : TcpHeader) (c : ℕ) → IsU16 c → Fits h → Fits (record h { cksum = c })
with_cksum-Fits h c lt v = record {
  sport_fits = v.sport_fits;
  dport_fits = v.dport_fits;
  seqno_fits = v.seqno_fits;
  ackno_fits = v.ackno_fits;
  doff_low = v.doff_low;
  doff_high = v.doff_high;
  win_fits = v.win_fits;
  cksum_fits = lt;
  uptr_fits = v.uptr_fits;
}

-- The checksum over a header and a payload, taken at once or one after the other.
sum_of :
    (h : TcpHeader) (payload : List ℕ) (pseudo : ℕ)
    → Fits h
    → length payload + 20 < 2 ^ 16
    → All IsByte payload
    → pseudo < 2 ^ 19
    → (word_sum false (bytes h ++ payload) ≡ word_sum false (put_fields h) + word_sum false payload)
      × (pseudo + word_sum false (put_fields h) + word_sum false payload < 2 ^ 32)
sum_of h payload pseudo v long small ps =
    let e : word_sum false (bytes h ++ payload)
        ≡ word_sum false (put_fields h) + word_sum false payload =
      word_sum-append false (bytes h) payload
      ∙ ap (λ b. word_sum false (bytes h) + word_sum b payload) (bytes-even h v)
      ∙ omega (arith, word_sum-bytes h) in
    (e, omega (arith, put_fields-bound h, word_sum-le false payload small))

value_at_once :
    (h : TcpHeader) (payload : List ℕ) (pseudo : ℕ)
    → Fits h
    → length payload + 20 < 2 ^ 16
    → All IsByte payload
    → pseudo < 2 ^ 19
    → InternetChecksum.value
        (InternetChecksum.add (bytes h ++ payload) (InternetChecksum.new pseudo))
      ≡ ok (65535 - residue (pseudo + word_sum false (put_fields h) + word_sum false payload))
unfolding InternetChecksum.new
value_at_once h payload pseudo v long small ps =
    let (e, lt) = sum_of h payload pseudo v long small ps in
    ap InternetChecksum.value (
      add-word_sum (bytes h ++ payload) (record { sum = pseudo; parity = false })
        (omega (arith, e, lt)))
    ∙ value-residue _ (omega (arith, e, lt))
    ∙ ap (λ n. ok (65535 - residue n)) (omega (arith, e))

value_in_turn :
    (h : TcpHeader) (payload : List ℕ) (pseudo : ℕ)
    → Fits h
    → length payload + 20 < 2 ^ 16
    → All IsByte payload
    → pseudo < 2 ^ 19
    → InternetChecksum.value (
        InternetChecksum.add payload (InternetChecksum.add (bytes h) (InternetChecksum.new pseudo)))
      ≡ ok (65535 - residue (pseudo + word_sum false (put_fields h) + word_sum false payload))
value_in_turn h payload pseudo v long small ps =
    ap InternetChecksum.value (sym (add-append (bytes h) payload (InternetChecksum.new pseudo)))
    ∙ value_at_once h payload pseudo v long small ps

-- The bytes that are written for a segment with this checksum field.
abbrev pub with_cksum : TcpSegment → ℕ → List ℕ
with_cksum seg c = bytes (record (seg.header) { cksum = c }) ++ Buffer.str seg.payload

-- A buffer with the bytes that are written for a segment passes the checksum and is read as it.
pub parse_carried :
    (g seg : TcpSegment) (pseudo : ℕ) (b : Buffer)
    → IsCarried seg
    → pseudo < 2 ^ 19
    → Buffer.str b ≡ with_cksum seg (right_cksum seg pseudo)
    → (seg' : TcpSegment) × (parse g b pseudo ≡ ok (no_error, seg'))
      × (seg'.header ≡ record (seg.header) { cksum = right_cksum seg pseudo })
      × (Buffer.str seg'.payload ≡ Buffer.str seg.payload)
unfolding parse
parse_carried g seg pseudo b w ps same =
    let payload : List ℕ = Buffer.str seg.payload in
    let c : ℕ = right_cksum seg pseudo in
    let h1 : TcpHeader = record (seg.header) { cksum = c } in
    let lt : c < 2 ^ 16 = omega arith in
    let fits : length payload + 20 < 2 ^ 16 =
      omega (arith, w.payload_fits, w.header_fits.doff_low) in
    let v1 : Fits h1 = with_cksum-Fits seg.header c lt w.header_fits in
    let (p, e, k) = parse-bytes g.header h1 payload b v1 same in
    let seg' : TcpSegment = record { header = h1; payload = p.buffer } in
    let passed : InternetChecksum.value
          (InternetChecksum.add (bytes h1 ++ payload) (InternetChecksum.new pseudo))
        ≡ ok 0 =
      value_at_once h1 payload pseudo v1 fits w.payload_bytes ps
      ∙ ap (λ n. ok (65535 - residue n)) (omega (arith, put_fields-word_sum seg.header c lt))
      ∙ ap ok (residue-complement (zero_sum seg pseudo)) in
    (seg', rw (same, passed, e) (ap (λ r. ok (r, seg')) k.fine), refl, k.left)

pub serialize_carried :
    (seg : TcpSegment) (pseudo : ℕ)
    → IsCarried seg
    → pseudo < 2 ^ 19
    → (out : BufferList.BufferList) × (serialize seg pseudo ≡ ok out)
      × (BufferList.concatenate out ≡ with_cksum seg (right_cksum seg pseudo))
unfolding serialize
serialize_carried seg pseudo w ps =
    let payload : List ℕ = Buffer.str seg.payload in
    let h : TcpHeader = seg.header in
    let c : ℕ = right_cksum seg pseudo in
    let h1 : TcpHeader = record h { cksum = c } in
    let fits : length payload + 20 < 2 ^ 16 =
      omega (arith, w.payload_fits, w.header_fits.doff_low) in
    let v0 : Fits (record h { cksum = 0 }) = with_cksum-Fits h 0 (omega arith) w.header_fits in
    let v1 : Fits h1 = with_cksum-Fits h c (omega arith) w.header_fits in
    (
      BufferList.append (BufferList.append [] (BufferList.of_string (bytes h1))) (seg.payload ∷ []),
      rw (
        serialize-bytes (record h { cksum = 0 }) v0,
        value_in_turn (record h { cksum = 0 }) payload pseudo v0 fits w.payload_bytes ps,
        serialize-bytes h1 v1,
      ),
      rw (
        concatenate-append, concatenate-append, concatenate-of_string, concatenate-nil,
        concatenate_one,
      ),
    )

pub length-with_cksum :
    (seg : TcpSegment) (pseudo : ℕ)
    → IsCarried seg
    → length (with_cksum seg (right_cksum seg pseudo))
      ≡ 4 * seg.header.doff + length (Buffer.str seg.payload)
length-with_cksum seg pseudo w =
    let h1 : TcpHeader = record (seg.header) { cksum = right_cksum seg pseudo } in
    length-append (bytes h1) (Buffer.str seg.payload)
    ∙ omega (
      arith,
      length-bytes h1
          (with_cksum-Fits seg.header (right_cksum seg pseudo) (omega arith) w.header_fits),
    )

-- A segment that a datagram can carry is written without an exception. Read with the same
-- pseudo-header sum, the bytes pass the checksum and give the segment with the checksum filled in.
pub segment_round_trip :
    (g seg : TcpSegment) (pseudo : ℕ)
    → IsCarried seg
    → pseudo < 2 ^ 19
    → (out : BufferList.BufferList) × (seg' : TcpSegment) × (serialize seg pseudo ≡ ok out)
      × (parse g (Buffer.of_string (BufferList.concatenate out)) pseudo ≡ ok (no_error, seg'))
      × (seg'.header ≡ record (seg.header) { cksum = right_cksum seg pseudo })
      × (Buffer.str seg'.payload ≡ Buffer.str seg.payload)
segment_round_trip g seg pseudo w ps =
    let (out, e, whole) = serialize_carried seg pseudo w ps in
    let (seg', f, header, payload) =
      parse_carried g seg pseudo (Buffer.of_string (BufferList.concatenate out)) w ps
        (str-of_string _ ∙ whole) in
    (out, seg', e, f, header, payload)
