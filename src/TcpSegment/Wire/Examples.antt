-- ===== src/TcpSegment/Wire/Examples.antt =====
-- A segment on the wire, on a concrete input.
use cs144_sponge.Base.{ℕ, ◌≡◌, sym, ap, subst, true, List, [], ◌∷◌, arith, length, All, IsByte, ok}
use cs144_sponge.Buffer
use cs144_sponge.Buffer.Laws.{str-of_string}
use cs144_sponge.BufferList
use cs144_sponge.NetParser.{no_error}
use cs144_sponge.TcpHeader.{default_header}
use cs144_sponge.TcpSegment
use cs144_sponge.TcpSegment.{TcpSegment}
use cs144_sponge.TcpSegment.Wire.{parse, serialize}
use cs144_sponge.TcpSegment.Wire.RoundTrip.{IsCarried, right_cksum, segment_round_trip}

abbrev sample_payload : List ℕ
sample_payload = 104 ∷ 101 ∷ 121 ∷ []

abbrev sample_segment : TcpSegment
sample_segment = record {
  header = record default_header {
    sport = 1080;
    dport = 80;
    seqno = 7;
    ackno = 9;
    ack = true;
    win = 64000;
  };
  payload = Buffer.of_string sample_payload;
}

sample_segment-IsCarried : IsCarried sample_segment
sample_segment-IsCarried = record {
  header_fits = record {
    sport_fits = omega arith;
    dport_fits = omega arith;
    seqno_fits = omega arith;
    ackno_fits = omega arith;
    doff_low = omega arith;
    doff_high = omega arith;
    win_fits = omega arith;
    cksum_fits = omega arith;
    uptr_fits = omega arith;
  };
  payload_fits = omega (arith, ap length (str-of_string sample_payload));
  payload_bytes =
      subst (All IsByte) (sym (str-of_string sample_payload))
        (omega arith, (omega arith, (omega arith, tt)));
}

segment_round_trip_example :
    (out : BufferList.BufferList) × (seg : TcpSegment) × (serialize sample_segment 12345 ≡ ok out)
    × (parse TcpSegment.new (Buffer.of_string (BufferList.concatenate out)) 12345
        ≡ ok (no_error, seg))
    × (seg.header ≡ record (sample_segment.header) { cksum = right_cksum sample_segment 12345 })
    × (Buffer.str seg.payload ≡ Buffer.str sample_segment.payload)
segment_round_trip_example =
    segment_round_trip TcpSegment.new sample_segment 12345 sample_segment-IsCarried (omega arith)
