-- ===== src/Ipv4Datagram/Samples.antt =====
-- A datagram to try the code on.
use cs144_sponge.Base.{ℕ, ◌+◌, ◌*◌, sym, ap, List, [], ◌∷◌, arith, length}
use cs144_sponge.BufferList
use cs144_sponge.BufferList.Laws.{concatenate-of_string}
use cs144_sponge.Ipv4Header.{Ipv4Header, default_header}
use cs144_sponge.Ipv4Header.Fields.{Fits}
use cs144_sponge.Ipv4Datagram.{Ipv4Datagram}
use cs144_sponge.Ipv4Datagram.RoundTrip.{IsWhole}

abbrev pub sample_header : Ipv4Header
sample_header = record default_header {
  len = 23;
  id = 9;
  ttl = 64;
  src = 3232235777;
  dst = 3232236034;
}

abbrev pub sample_payload : List ℕ
sample_payload = 72 ∷ 105 ∷ 33 ∷ []

abbrev pub sample_datagram : Ipv4Datagram
sample_datagram = record { header = sample_header; payload = BufferList.of_string sample_payload }

pub sample_header-Fits : Fits sample_header
sample_header-Fits = record {
  version = omega arith;
  hlen_low = omega arith;
  hlen_high = omega arith;
  tos_fits = omega arith;
  len_fits = omega arith;
  id_fits = omega arith;
  offset_fits = omega arith;
  ttl_fits = omega arith;
  proto_fits = omega arith;
  cksum_fits = omega arith;
  src_fits = omega arith;
  dst_fits = omega arith;
}

pub sample_datagram-IsWhole : IsWhole sample_datagram
sample_datagram-IsWhole = record {
  header_fits = sample_header-Fits;
  total = ap (λ s. 4 * 5 + length s) (sym (concatenate-of_string sample_payload));
}
