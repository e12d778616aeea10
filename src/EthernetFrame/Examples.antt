-- ===== src/EthernetFrame/Examples.antt =====
-- Frames on the wire, on concrete inputs.
use cs144_sponge.Base.{◌≡◌, [], ◌∷◌, ok}
use cs144_sponge.Buffer
use cs144_sponge.BufferList
use cs144_sponge.NetParser.{no_error}
use cs144_sponge.EthernetHeader.Samples.{sample_header, sample_header-Fits}
use cs144_sponge.EthernetFrame.{EthernetFrame, parse, serialize}
use cs144_sponge.EthernetFrame.RoundTrip.{frame_round_trip}

abbrev sample_frame : EthernetFrame
sample_frame = record { header = sample_header; payload = BufferList.of_string (1 ∷ 2 ∷ 3 ∷ []) }

frame_round_trip_example :
    (f : EthernetFrame) × (parse sample_frame
        (Buffer.of_string (BufferList.concatenate (serialize sample_frame)))
      ≡ ok (no_error, f))
    × (f.header ≡ sample_header)
    × (BufferList.concatenate f.payload ≡ BufferList.concatenate sample_frame.payload)
frame_round_trip_example = frame_round_trip sample_frame sample_frame sample_header-Fits
