-- ===== src/EthernetHeader/Samples.antt =====
-- Addresses to try the code on.
use cs144_sponge.Base.{arith}
use cs144_sponge.EthernetHeader.{EthernetAddress, EthernetHeader, type_ipv4}
use cs144_sponge.EthernetHeader.RoundTrip.{AddressFits, Fits}

abbrev pub first_mac : EthernetAddress
first_mac = record { b0 = 2; b1 = 0; b2 = 0; b3 = 94; b4 = 16; b5 = 1 }

abbrev pub second_mac : EthernetAddress
second_mac = record { b0 = 2; b1 = 0; b2 = 0; b3 = 171; b4 = 205; b5 = 239 }

pub first_mac-AddressFits : AddressFits first_mac
first_mac-AddressFits = record {
  b0_fits = omega arith;
  b1_fits = omega arith;
  b2_fits = omega arith;
  b3_fits = omega arith;
  b4_fits = omega arith;
  b5_fits = omega arith;
}

pub second_mac-AddressFits : AddressFits second_mac
second_mac-AddressFits = record {
  b0_fits = omega arith;
  b1_fits = omega arith;
  b2_fits = omega arith;
  b3_fits = omega arith;
  b4_fits = omega arith;
  b5_fits = omega arith;
}

abbrev pub sample_header : EthernetHeader
sample_header = record { dst = first_mac; src = second_mac; ether_type = type_ipv4 }

pub sample_header-Fits : Fits sample_header
sample_header-Fits = record {
  dst_fits = first_mac-AddressFits;
  src_fits = second_mac-AddressFits;
  type_fits = omega arith;
}
