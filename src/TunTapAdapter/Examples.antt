-- ===== src/TunTapAdapter/Examples.antt =====
-- A segment between two hosts.
use cs144_sponge.Base.{
  ℕ, ◌≡◌, refl, ap, sym, subst, none, some, true, List, [], ◌∷◌, ◌++◌, ok, arith, length, All,
  IsByte,
}
use cs144_sponge.Buffer
use cs144_sponge.Buffer.Laws.{str-of_string}
use cs144_sponge.TcpHeader.{default_header}
use cs144_sponge.TcpSegment.{TcpSegment}
use cs144_sponge.TcpSegment.Wire.RoundTrip.{right_cksum}
use cs144_sponge.EthernetHeader.{EthernetAddress}
use cs144_sponge.EthernetHeader.RoundTrip.{AddressFits}
use cs144_sponge.Ipv4Header.{pseudo_cksum}
use cs144_sponge.FdAdapter.{Address, FdAdapterBase, default_adapter, set_ports}
use cs144_sponge.TcpOverIp.{header_for}
use cs144_sponge.TcpOverIp.Carried.{IsSendable}
use cs144_sponge.TunTapAdapter.{EthernetAdapter, read, write}
use cs144_sponge.TunTapAdapter.Frames.{host}
use cs144_sponge.TunTapAdapter.Stack.{segment_over_ethernet}

abbrev here : Address
here = record { ipv4_numeric = 2851998217; port = 40001 }

abbrev there : Address
there = record { ipv4_numeric = 2851998209; port = 80 }

abbrev this_end : FdAdapterBase
this_end = record default_adapter {
  cfg = record (default_adapter.cfg) { source = here; destination = there };
}

abbrev other_end : FdAdapterBase
other_end = record default_adapter {
  cfg = record (default_adapter.cfg) { source = there; destination = here };
}

abbrev this_mac : EthernetAddress
this_mac = record { b0 = 2; b1 = 17; b2 = 34; b3 = 51; b4 = 68; b5 = 85 }

abbrev other_mac : EthernetAddress
other_mac = record { b0 = 2; b1 = 102; b2 = 119; b3 = 136; b4 = 153; b5 = 170 }

this_mac-Fits : AddressFits this_mac
this_mac-Fits = record {
  b0_fits = omega arith;
  b1_fits = omega arith;
  b2_fits = omega arith;
  b3_fits = omega arith;
  b4_fits = omega arith;
  b5_fits = omega arith;
}

other_mac-Fits : AddressFits other_mac
other_mac-Fits = record {
  b0_fits = omega arith;
  b1_fits = omega arith;
  b2_fits = omega arith;
  b3_fits = omega arith;
  b4_fits = omega arith;
  b5_fits = omega arith;
}

abbrev greeting : List ℕ
greeting = 104 ∷ 105 ∷ []

abbrev greeting_segment : TcpSegment
greeting_segment = record {
  header = record default_header { seqno = 12; ackno = 5; ack = true; win = 1000 };
  payload = Buffer.of_string greeting;
}

greeting_segment-IsSendable : IsSendable this_end greeting_segment
greeting_segment-IsSendable = record {
  carried = record {
    header_fits = record {
      sport_fits = omega arith;
      dport_fits = omega arith;
      seqno_fits = omega arith;
      ackno_fits = omega arith;
      doff_low = omega arith;
      doff_high = omega arith;
      win_fits = omega arith;
      cksum_fits = omega arith;
      uptr_fits = omega arith;
    };
    payload_fits = omega (arith, ap length (str-of_string greeting));
    payload_bytes =
        subst (All IsByte) (sym (str-of_string greeting)) (omega arith, (omega arith, tt));
  };
  fits = omega (arith, ap length (str-of_string greeting));
  source_fits = omega arith;
  destination_fits = omega arith;
}

segment_over_ethernet_example :
    (a1 a2 b1 : EthernetAdapter) × (request reply carrier : List ℕ) × (r : TcpSegment) × (write
        greeting_segment
        (host this_end this_mac 2851998217 2851998209)
      ≡ ok (set_ports this_end greeting_segment, a1))
    × (a1.tap ≡ (host this_end this_mac 2851998217 2851998209).tap ++ (request ∷ []))
    × (read (λ n. n) request (host other_end other_mac 2851998209 2851998217) ≡ ok (none, b1))
    × (b1.tap ≡ (host other_end other_mac 2851998209 2851998217).tap ++ (reply ∷ []))
    × (read (λ n. n) reply a1 ≡ ok (none, a2))
    × (a2.tap ≡ a1.tap ++ (carrier ∷ []))
    × (read (λ n. n) carrier b1 ≡ ok (some r, b1))
    × (r.header ≡ record (greeting_segment.header) {
      sport = 40001;
      dport = 80;
      cksum =
          right_cksum
            (set_ports this_end greeting_segment)
            (pseudo_cksum (header_for this_end (set_ports this_end greeting_segment)));
    })
    × (Buffer.str r.payload ≡ Buffer.str greeting_segment.payload)
segment_over_ethernet_example =
    segment_over_ethernet (λ n. n) this_end other_end this_mac other_mac 2851998217 2851998209
      2851998217 greeting_segment greeting_segment-IsSendable refl refl refl this_mac-Fits
      other_mac-Fits (omega arith) (omega arith)
