-- ===== src/TcpSegment/Wire/Written.antt =====
-- Segments that can be written.
use cs144_sponge.Base.{ℕ, ◌*◌, ◌-◌, ◌≡◌, refl, List, [], ◌∷◌, arith, ok, IsU32}
use cs144_sponge.Buffer
use cs144_sponge.BufferList
use cs144_sponge.InternetChecksum
use cs144_sponge.InternetChecksum.{InternetChecksum, add_byte}
use cs144_sponge.InternetChecksum.Sum.{residue, value-residue}
use cs144_sponge.TcpHeader.{TcpHeader}
use cs144_sponge.TcpHeader.Wire as Header
use cs144_sponge.TcpHeader.Wire.{put_fields, resize}
use cs144_sponge.TcpSegment.{TcpSegment}
use cs144_sponge.TcpSegment.Wire.{serialize}

add-IsU32 : (d : List ℕ) (c : InternetChecksum) → IsU32 c.sum → IsU32 (InternetChecksum.add d c).sum
unfolding InternetChecksum.add
add-IsU32 [] c h = h
add-IsU32 (x ∷ d) c h = add-IsU32 d (add_byte x c) (unfold add_byte in omega arith)

header_written : (h : TcpHeader) → h.doff ≡ 5 → (d : List ℕ) × (Header.serialize h ≡ ok d)
unfolding Header.serialize
header_written h p = (resize (4 * h.doff) (put_fields h), rw p refl)

-- A segment without options is written without an exception, whatever its fields and its payload are.
pub serialize_written :
    (seg : TcpSegment) (pseudo : ℕ)
    → seg.header.doff ≡ 5
    → IsU32 pseudo
    → (out : BufferList.BufferList) × (serialize seg pseudo ≡ ok out)
unfolding serialize InternetChecksum.new
serialize_written seg pseudo p small =
    let (zeroed, e1) = header_written (record (seg.header) { cksum = 0 }) p in
    let c : InternetChecksum =
      InternetChecksum.add (Buffer.str seg.payload)
        (InternetChecksum.add zeroed (InternetChecksum.new pseudo)) in
    let v : InternetChecksum.value c ≡ ok (65535 - residue c.sum) = value-residue c (
      add-IsU32 (Buffer.str seg.payload) _
        (add-IsU32 zeroed (InternetChecksum.new pseudo) small)) in
    let (d, e2) = header_written (record (seg.header) { cksum = 65535 - residue c.sum }) p in
    (
      BufferList.append (BufferList.append [] (BufferList.of_string d)) (seg.payload ∷ []),
      rw (e1, v, e2),
    )
