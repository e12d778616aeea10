-- ===== src/EthernetFrame/RoundTrip.antt =====
-- Frames on the wire.
use cs144_sponge.Base.{ℕ, ◌≡◌, refl, ap, ◌∙◌, List, [], ◌∷◌, ◌++◌, ok}
use cs144_sponge.Buffer
use cs144_sponge.Buffer.{Buffer}
use cs144_sponge.Buffer.Laws.{str-of_string}
use cs144_sponge.BufferList
use cs144_sponge.BufferList.Laws.{
  concatenate-append, concatenate-of_string, concatenate_one, concatenate-nil,
}
use cs144_sponge.NetParser
use cs144_sponge.NetParser.{NetParser, no_error}
use cs144_sponge.EthernetHeader
use cs144_sponge.EthernetHeader.{header_length}
use cs144_sponge.EthernetHeader.RoundTrip.{Fits, parse-serialize_header}
use cs144_sponge.EthernetFrame.{EthernetFrame, parse, serialize}

-- A frame whose header fits is read back from its bytes without an error: the same header, and the
-- same bytes of payload.
pub frame_round_trip :
    (g f : EthernetFrame)
    → Fits f.header
    → (f' : EthernetFrame) × (parse g (Buffer.of_string (BufferList.concatenate (serialize f)))
        ≡ ok (no_error, f'))
      × (f'.header ≡ f.header)
      × (BufferList.concatenate f'.payload ≡ BufferList.concatenate f.payload)
unfolding parse serialize NetParser.new
frame_round_trip g f v =
    let payload : List ℕ = BufferList.concatenate f.payload in
    let s : List ℕ = EthernetHeader.serialize f.header ++ payload in
    let whole : BufferList.concatenate (serialize f) ≡ s =
      rw (concatenate-append, concatenate-append, concatenate-of_string, concatenate-nil) in
    let (p, e, k) =
      parse-serialize_header g.header f.header payload (NetParser.new (Buffer.of_string s)) v
        (record { left = str-of_string s; fine = refl }) in
    let f' : EthernetFrame = record { header = f.header; payload = p.buffer ∷ [] } in
    (
      f',
      ap (λ x. parse g (Buffer.of_string x)) whole ∙ rw e (ap (λ r. ok (r, f')) k.fine),
      refl,
      concatenate_one p.buffer ∙ k.left,
    )
