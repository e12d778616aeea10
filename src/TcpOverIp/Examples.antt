-- ===== src/TcpOverIp/Examples.antt =====
-- A segment from one host to another.
use cs144_sponge.Base.{
  ℕ, ◌≡◌, refl, sym, ap, subst, true, some, List, [], ◌∷◌, arith, length, All, IsByte, ok,
}
use cs144_sponge.Buffer
use cs144_sponge.Buffer.Laws.{str-of_string}
use cs144_sponge.BufferList
use cs144_sponge.NetParser.{no_error}
use cs144_sponge.TcpHeader.{default_header}
use cs144_sponge.TcpSegment.{TcpSegment}
use cs144_sponge.TcpSegment.Wire.RoundTrip.{right_cksum}
use cs144_sponge.Ipv4Header.{pseudo_cksum}
use cs144_sponge.Ipv4Datagram
use cs144_sponge.Ipv4Datagram.{Ipv4Datagram, default_datagram}
use cs144_sponge.FdAdapter.{Address, FdAdapterBase, default_adapter, set_ports}
use cs144_sponge.TcpOverIp.{wrap_tcp_in_ip, unwrap_tcp_in_ip}
use cs144_sponge.TcpOverIp.Carried.{IsSendable, segment_carried}

abbrev here : Address
here = record { ipv4_numeric = 3232235777; port = 1080 }

abbrev there : Address
there = record { ipv4_numeric = 3232236034; port = 80 }

abbrev this_end : FdAdapterBase
this_end = record default_adapter {
  cfg = record (default_adapter.cfg) { source = here; destination = there };
}

abbrev other_end : FdAdapterBase
other_end = record default_adapter {
  cfg = record (default_adapter.cfg) { source = there; destination = here };
}

abbrev sample_payload : List ℕ
sample_payload = 71 ∷ 69 ∷ 84 ∷ []

abbrev sample_segment : TcpSegment
sample_segment = record {
  header = record default_header { seqno = 7; ackno = 9; ack = true; win = 64000 };
  payload = Buffer.of_string sample_payload;
}

sample_segment-IsSendable : IsSendable this_end sample_segment
sample_segment-IsSendable = record {
  carried = record {
    header_fits = record {
      sport_fits = omega arith;
      dport_fits = omega arith;
      seqno_fits = omega arith;
      ackno_fits = omega arith;
      doff_low = omega arith;
      doff_high = omega arith;
      win_fits = omega arith;
      cksum_fits = omega arith;
      uptr_fits = omega arith;
    };
    payload_fits = omega (arith, ap length (str-of_string sample_payload));
    payload_bytes =
        subst (All IsByte) (sym (str-of_string sample_payload))
          (omega arith, (omega arith, (omega arith, tt)));
  };
  fits = omega (arith, ap length (str-of_string sample_payload));
  source_fits = omega arith;
  destination_fits = omega arith;
}

segment_carried_example :
    (d d' : Ipv4Datagram) × (out : BufferList.BufferList) × (r : TcpSegment) × (wrap_tcp_in_ip
        this_end sample_segment
      ≡ ok (d, set_ports this_end sample_segment))
    × (Ipv4Datagram.serialize d ≡ ok out)
    × (Ipv4Datagram.parse default_datagram (Buffer.of_string (BufferList.concatenate out))
        ≡ ok (no_error, d'))
    × (unwrap_tcp_in_ip (λ n. n) other_end d' ≡ ok (some r, other_end))
    × (r.header ≡ record (sample_segment.header) {
      sport = 1080;
      dport = 80;
      cksum = right_cksum (set_ports this_end sample_segment) (pseudo_cksum d.header);
    })
    × (Buffer.str r.payload ≡ Buffer.str sample_segment.payload)
segment_carried_example =
    segment_carried (λ n. n) this_end other_end sample_segment sample_segment-IsSendable refl refl
      refl
