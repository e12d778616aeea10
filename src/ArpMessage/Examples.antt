-- ===== src/ArpMessage/Examples.antt =====
-- A request on the wire.
use cs144_sponge.Base.{ℕ, ◌≡◌, refl, List, arith, length, ok}
use cs144_sponge.Buffer
use cs144_sponge.NetParser.{no_error}
use cs144_sponge.EthernetHeader.Samples.{first_mac, first_mac-AddressFits}
use cs144_sponge.ArpMessage.{
  ArpMessage, default_message, opcode_request, message_length, supported, parse, serialize,
}
use cs144_sponge.ArpMessage.RoundTrip.{Fits, message_round_trip}

abbrev sample_request : ArpMessage
sample_request = record default_message {
  opcode = opcode_request;
  sender_ethernet_address = first_mac;
  sender_ip_address = 3232235777;
  target_ethernet_address = first_mac;
  target_ip_address = 3232236034;
}

sample_request-Fits : Fits sample_request
unfolding supported
sample_request-Fits = record {
  kind = refl;
  hardware_type_fits = omega arith;
  protocol_type_fits = omega arith;
  hardware_address_size_fits = omega arith;
  protocol_address_size_fits = omega arith;
  opcode_fits = omega arith;
  sender_ethernet_fits = first_mac-AddressFits;
  sender_ip_fits = omega arith;
  target_ethernet_fits = first_mac-AddressFits;
  target_ip_fits = omega arith;
}

message_round_trip_example :
    (s : List ℕ) × (serialize sample_request ≡ ok s)
    × (length s ≡ message_length)
    × (parse default_message (Buffer.of_string s) ≡ ok (no_error, sample_request))
message_round_trip_example = message_round_trip default_message sample_request sample_request-Fits
