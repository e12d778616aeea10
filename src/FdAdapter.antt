-- ===== src/FdAdapter.antt =====
-- libsponge/tcp_helpers/fd_adapter.{hh,cc} and lossy_fd_adapter.hh, with the adapters' part of
-- tcp_config.hh: TCP segments in UDP datagrams.
-- The socket is the system's: what `recv` gives is an argument, what `sendto` is given is returned.
pub mod Exchange
mod Examples
use cs144_sponge.Base.{
  ℕ, Bool, true, false, ◌&&◌, not, Option, none, some, List, ◌==◌, ltb, u16, if◌then◌else◌, Result,
  ok, ◌>>=◌,
}
use cs144_sponge.Buffer
use cs144_sponge.BufferList.{BufferList}
use cs144_sponge.NetParser.{is_error}
use cs144_sponge.TcpSegment
use cs144_sponge.TcpSegment.{TcpSegment}
use cs144_sponge.TcpSegment.Wire as Segment

-- An `Address` by `ipv4_numeric` and `port`.
pub record Address : Type 0 where
  pub ipv4_numeric : ℕ
  pub port : ℕ

pub record FdAdapterConfig : Type 0 where
  pub source : Address
  pub destination : Address
  pub loss_rate_dn : ℕ
  pub loss_rate_up : ℕ

pub record FdAdapterBase : Type 0 where
  pub cfg : FdAdapterConfig
  pub listen : Bool

abbrev any_address : Address
any_address = record { ipv4_numeric = 0; port = 0 }

-- `FdAdapterBase{}`
abbrev pub default_adapter : FdAdapterBase
default_adapter = record {
  cfg = record {
    source = any_address;
    destination = any_address;
    loss_rate_dn = 0;
    loss_rate_up = 0;
  };
  listen = false;
}

unfoldable pub set_listening : Bool → FdAdapterBase → FdAdapterBase
set_listening l a = record a { listen = l }

abbrev pub same_endpoint : Address → Address → Bool
same_endpoint x y = x.ipv4_numeric == y.ipv4_numeric && x.port == y.port

-- The peer that a listening adapter takes on.
unfoldable pub accept_udp : FdAdapterBase → Address → TcpSegment → Option TcpSegment × FdAdapterBase
unfolding set_listening
accept_udp a source_address seg =
    if not a.listen
    then (some seg, a)
    else if seg.header.syn && not seg.header.rst
    then (
      some seg,
      set_listening false (record a { cfg = record (a.cfg) { destination = source_address } }),
    )
    else (none, a)

-- `TCPOverUDPSocketAdapter::read`
unfoldable pub read_udp :
    FdAdapterBase → Address → List ℕ → Result (Option TcpSegment × FdAdapterBase)
read_udp a source_address payload =
    if not a.listen && not (same_endpoint source_address a.cfg.destination)
    then ok (none, a)
    else (Segment.parse TcpSegment.new (Buffer.of_string payload) 0 >>= λ r.
        ok (if is_error r.0 then (none, a) else accept_udp a source_address r.1))

abbrev pub set_ports : FdAdapterBase → TcpSegment → TcpSegment
set_ports a seg = record seg {
  header = record (seg.header) { sport = a.cfg.source.port; dport = a.cfg.destination.port };
}

-- `TCPOverUDPSocketAdapter::write`: the address, the bytes and the segment with its ports.
unfoldable pub write_udp : FdAdapterBase → TcpSegment → Result (Address × BufferList × TcpSegment)
write_udp a seg =
    Segment.serialize (set_ports a seg) 0 >>= λ out. ok (a.cfg.destination, out, set_ports a seg)

-- `LossyFdAdapter::_should_drop`, on the number that the generator gives.
unfoldable pub should_drop : FdAdapterConfig → Bool → ℕ → Bool
should_drop cfg uplink random =
    let loss = if uplink then cfg.loss_rate_up else cfg.loss_rate_dn in
    not (loss == 0) && ltb (u16 random) loss

-- `LossyFdAdapter::read`, after the adapter's own `read`.
unfoldable pub lossy_read : FdAdapterConfig → ℕ → Option TcpSegment → Option TcpSegment
lossy_read cfg random ret = if should_drop cfg false random then none else ret

-- `LossyFdAdapter::write`: `none` is a segment that is dropped, and else it is the adapter's to write.
unfoldable pub lossy_write : FdAdapterConfig → ℕ → TcpSegment → Option TcpSegment
lossy_write cfg random seg = if should_drop cfg true random then none else some seg
