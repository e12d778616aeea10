-- ===== src/FdAdapter/Examples.antt =====
-- Adapters over UDP, on concrete inputs.
use cs144_sponge.Base.{true, [], ◌∷◌}
use cs144_sponge.Buffer
use cs144_sponge.BufferList
use cs144_sponge.TcpHeader.{default_header}
use cs144_sponge.TcpSegment.{TcpSegment}
use cs144_sponge.FdAdapter.{Address, FdAdapterBase, default_adapter}

abbrev client : Address
client = record { ipv4_numeric = 3232235777; port = 40000 }

abbrev server : Address
server = record { ipv4_numeric = 3232235778; port = 80 }

abbrev caller : FdAdapterBase
caller = record default_adapter {
  cfg = record (default_adapter.cfg) { source = client; destination = server };
}

abbrev listener : FdAdapterBase
listener = record default_adapter {
  cfg = record (default_adapter.cfg) { source = server };
  listen = true;
}

abbrev opening : TcpSegment
opening = record {
  header = record default_header { seqno = 17; syn = true };
  payload = Buffer.of_string (1 ∷ 2 ∷ []);
}
