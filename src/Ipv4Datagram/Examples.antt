-- ===== src/Ipv4Datagram/Examples.antt =====
-- Datagrams on the wire, on a concrete input.
use cs144_sponge.Base.{◌≡◌, refl, ◌++◌, ok}
use cs144_sponge.Buffer
use cs144_sponge.BufferList
use cs144_sponge.NetParser
use cs144_sponge.NetParser.{NetParser, no_error, bad_checksum}
use cs144_sponge.Ipv4Header
use cs144_sponge.Ipv4Header.{Ipv4Header}
use cs144_sponge.Ipv4Header.RoundTrip.{bytes, right_cksum, verdict}
use cs144_sponge.Ipv4Datagram.{Ipv4Datagram, default_datagram, parse, serialize}
use cs144_sponge.Ipv4Datagram.RoundTrip.{parse_ignores_checksum, datagram_round_trip}
use cs144_sponge.Ipv4Datagram.Samples.{
  sample_header, sample_header-Fits, sample_payload, sample_datagram, sample_datagram-IsWhole,
}

-- The sample's checksum field is 0, which is wrong for it.
wrong_checksum : verdict sample_header ≡ bad_checksum
unfolding Ipv4Header.put_fields Ipv4Header.put_lengths Ipv4Header.put_fragment
    Ipv4Header.put_addresses NetParser.put_u8 NetParser.put_u16 NetParser.put_u32
wrong_checksum = refl

parse_ignores_checksum_example :
    (d : Ipv4Datagram) × (p : NetParser) × (Ipv4Header.parse default_datagram.header
        (NetParser.new (Buffer.of_string (bytes sample_header ++ sample_payload)))
      ≡ ok (verdict sample_header, sample_header, p))
    × (parse default_datagram (Buffer.of_string (bytes sample_header ++ sample_payload))
        ≡ ok (no_error, d))
    × (d.header ≡ sample_header)
    × (BufferList.concatenate d.payload ≡ sample_payload)
parse_ignores_checksum_example =
    parse_ignores_checksum default_datagram sample_header sample_payload sample_header-Fits refl

datagram_round_trip_example :
    (out : BufferList.BufferList) × (d : Ipv4Datagram) × (serialize sample_datagram ≡ ok out)
    × (parse default_datagram (Buffer.of_string (BufferList.concatenate out)) ≡ ok (no_error, d))
    × (d.header ≡ record sample_header { cksum = right_cksum sample_header })
    × (BufferList.concatenate d.payload ≡ BufferList.concatenate sample_datagram.payload)
datagram_round_trip_example =
    datagram_round_trip default_datagram sample_datagram sample_datagram-IsWhole
