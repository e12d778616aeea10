-- ===== src/FdAdapter/Exchange.antt =====
-- A segment travels from one adapter over UDP to another.
use cs144_sponge.Base.{Bool, false, not, ◌&&◌, if◌then◌else◌}
use cs144_sponge.Buffer
use cs144_sponge.BufferList
use cs144_sponge.TcpHeader.{TcpHeader}
use cs144_sponge.TcpSegment
use cs144_sponge.TcpSegment.{TcpSegment}
use cs144_sponge.TcpSegment.Wire as Segment
use cs144_sponge.FdAdapter.{Address, FdAdapterBase, same_endpoint}

-- A listening adapter hears those who want to connect, any other its peer.
abbrev pub hears : FdAdapterBase → Address → TcpHeader → Bool
hears b source h = if b.listen then h.syn && not h.rst else same_endpoint source b.cfg.destination

-- A listening adapter takes on the first one that it hears.
abbrev pub taken_on : FdAdapterBase → Address → TcpHeader → FdAdapterBase
taken_on b source h =
    if b.listen && hears b source h
    then record b { cfg = record (b.cfg) { destination = source }; listen = false }
    else b
