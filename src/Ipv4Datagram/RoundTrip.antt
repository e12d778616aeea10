-- ===== src/Ipv4Datagram/RoundTrip.antt =====
-- A datagram on the wire.
use cs144_sponge.Base.{
  ℕ, ◌+◌, ◌*◌, ◌≡◌, refl, ap, ◌∙◌, true, List, [], ◌∷◌, ◌++◌, arith, length, ok, ◌==◌,
}
use cs144_sponge.Buffer
use cs144_sponge.BufferList
use cs144_sponge.BufferList.Laws.{
  concatenate-append, concatenate-of_string, concatenate_one, concatenate-nil, size-concatenate,
}
use cs144_sponge.NetParser
use cs144_sponge.NetParser.{NetParser, no_error}
use cs144_sponge.Ipv4Header
use cs144_sponge.Ipv4Header.{Ipv4Header, payload_length}
use cs144_sponge.Ipv4Header.Fields.{Fits}
use cs144_sponge.Ipv4Header.RoundTrip.{
  bytes, verdict, right_cksum, serialize-bytes, checksum-bytes, with_cksum-Fits, parse-bytes,
}
use cs144_sponge.Ipv4Datagram.{Ipv4Datagram, parse, serialize}

-- The header fits, and its total length is that of the datagram.
pub record IsWhole (d : Ipv4Datagram) : Type 0 where
  pub header_fits : Fits d.header
  pub total : d.header.len ≡ 4 * d.header.hlen + length (BufferList.concatenate d.payload)

payload_length_of :
    (h : Ipv4Header) (n : ℕ) → Fits h → h.len ≡ 4 * h.hlen + n → payload_length h ≡ n
unfolding payload_length
payload_length_of h n v e = omega (arith, e, v.len_fits, v.hlen_high)

-- The bytes of a header that fits, and as many behind them as it says, are accepted as a datagram
-- whatever the checksum field holds, while the header's own `parse` decides by the checksum: its
-- outcome is dropped.
pub parse_ignores_checksum :
    (g : Ipv4Datagram) (h : Ipv4Header) (payload : List ℕ)
    → Fits h
    → h.len ≡ 4 * h.hlen + length payload
    → (d : Ipv4Datagram) × (p : NetParser) × (Ipv4Header.parse g.header
          (NetParser.new (Buffer.of_string (bytes h ++ payload)))
        ≡ ok (verdict h, h, p))
      × (parse g (Buffer.of_string (bytes h ++ payload)) ≡ ok (no_error, d))
      × (d.header ≡ h)
      × (BufferList.concatenate d.payload ≡ payload)
unfolding parse
parse_ignores_checksum g h payload v total =
    let (p, e, k) = parse-bytes g.header h payload v total in
    let d : Ipv4Datagram = record { header = h; payload = p.buffer ∷ [] } in
    let same : BufferList.concatenate d.payload ≡ payload = concatenate_one p.buffer ∙ k.left in
    let fits : (BufferList.size d.payload == payload_length h) ≡ true = ground (
      arith,
      size-concatenate d.payload,
      ap length same,
      payload_length_of h (length payload) v total,
    ) in
    (d, p, e, rw (e, fits, k.fine), refl, same)

concatenate_out :
    (s : List ℕ) (payload : BufferList.BufferList)
    → BufferList.concatenate
        (BufferList.append (BufferList.append [] (BufferList.of_string s)) payload)
      ≡ s ++ BufferList.concatenate payload
concatenate_out s payload =
    rw (concatenate-append, concatenate-append, concatenate-of_string, concatenate-nil)

-- A datagram that is whole is written without an exception; the bytes are read back without an error
-- as the datagram with the checksum filled in.
pub datagram_round_trip :
    (g d : Ipv4Datagram)
    → IsWhole d
    → (out : BufferList.BufferList) × (d' : Ipv4Datagram) × (serialize d ≡ ok out)
      × (parse g (Buffer.of_string (BufferList.concatenate out)) ≡ ok (no_error, d'))
      × (d'.header ≡ record (d.header) { cksum = right_cksum d.header })
      × (BufferList.concatenate d'.payload ≡ BufferList.concatenate d.payload)
unfolding serialize
datagram_round_trip g d w =
    let h : Ipv4Header = d.header in
    let v : Fits h = w.header_fits in
    let payload : List ℕ = BufferList.concatenate d.payload in
    let h0 : Ipv4Header = record h { cksum = 0 } in
    let h1 : Ipv4Header = record h { cksum = right_cksum h } in
    let v1 : Fits h1 = with_cksum-Fits h (right_cksum h) (omega arith) v in
    let out : BufferList.BufferList =
      BufferList.append (BufferList.append [] (BufferList.of_string (bytes h1))) d.payload in
    let (d', p, e, f, same_header, same) = parse_ignores_checksum g h1 payload v1 w.total in
    let fits : (BufferList.size d.payload == payload_length h) ≡ true =
      ground (arith, size-concatenate d.payload, payload_length_of h (length payload) v w.total) in
    (
      out,
      d',
      rw (
        fits,
        serialize-bytes h0 (with_cksum-Fits h 0 (omega arith) v),
        checksum-bytes h0,
        serialize-bytes h1 v1,
      ),
      ap (λ s. parse g (Buffer.of_string s)) (concatenate_out (bytes h1) d.payload) ∙ f,
      same_header,
      same,
    )
