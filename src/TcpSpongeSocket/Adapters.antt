-- ===== src/TcpSpongeSocket/Adapters.antt =====
-- The adapters for which the socket is instantiated over UDP and over TUN, and what makes them lossy.
-- What the kernel answers is a function of the number of the call, and for a datagram that is sent also
-- of its size; the random numbers are one of the number of the call.
use cs144_sponge.Base.{ℕ, Option, none, some, List, Result, [], ◌∷◌, ◌++◌, ok, ◌>>=◌}
use cs144_sponge.BufferViewList
use cs144_sponge.TcpSegment.{TcpSegment}
use cs144_sponge.FileDescriptor.{Answer, FdWrapper, register_read, register_write}
use cs144_sponge.FdAdapter.{
  Address, FdAdapterBase, FdAdapterConfig, set_listening, read_udp, write_udp, lossy_read,
  lossy_write,
}
use cs144_sponge.Sockets.{Received, default_mtu, recv, sendto}
use cs144_sponge.TunTapAdapter.{read_tun, write_tun}
use cs144_sponge.TcpSpongeSocket.{Adapter}

-- `FdAdapterBase::config_mut` and `set_listening`, of which a derived adapter has a copy.
abbrev pub with_config : FdAdapterConfig → FdAdapterBase → FdAdapterBase
with_config cfg a = record a { cfg = cfg }

-- `TCPOverUDPSocketAdapter`, with the datagrams that it sent.
pub record UdpAdapter : Type 0 where
  pub base : FdAdapterBase
  pub sock : FdWrapper
  pub sent : List (Address × List ℕ)

unfoldable pub udp_adapter : (ℕ → Received) → (ℕ → ℕ → Answer) → Adapter UdpAdapter
udp_adapter received answers = record {
  descriptor = λ a. a.sock;
  read = λ i a. recv default_mtu (received i) a.sock >>= λ d.
      read_udp a.base d.0.0 d.0.1 >>= λ r. ok (r.0, record a { base = r.1; sock = d.1 });
  write = λ i seg a. write_udp a.base seg >>= λ out.
      let views = BufferViewList.of_buffers out.1 in
      sendto (answers i (BufferViewList.size views)) out.0 views a.sock >>= λ d.
      ok (record a { sock = d.1; sent = a.sent ++ (d.0 ∷ []) });
  tick = λ ms a. ok a;
  configure = λ cfg a. record a { base = with_config cfg a.base };
  set_listening = λ l a. record a { base = set_listening l a.base };
}

-- `TCPOverIPv4OverTunFdAdapter`; the device gives the bytes of a datagram, and takes every write.
pub record TunAdapter : Type 0 where
  pub base : FdAdapterBase
  pub tun : FdWrapper
  pub sent : List (List ℕ)

unfoldable pub tun_adapter : (ℕ → ℕ) → (ℕ → List ℕ) → Adapter TunAdapter
tun_adapter through_text given = record {
  descriptor = λ a. a.tun;
  read = λ i a. read_tun through_text a.base (given i) >>= λ r.
      ok (r.0, record a { base = r.1; tun = register_read a.tun });
  write = λ i seg a. write_tun a.base seg >>= λ out.
      ok (record a { tun = register_write a.tun; sent = a.sent ++ (out.0 ∷ []) });
  tick = λ ms a. ok a;
  configure = λ cfg a. record a { base = with_config cfg a.base };
  set_listening = λ l a. record a { base = set_listening l a.base };
}

-- A segment that is not dropped is written.
unfoldable pub pass_on : {A : Type 0} → Adapter A → ℕ → Option TcpSegment → A → Result A
pass_on ad i none a = ok a
pass_on ad i (some seg) a = Adapter.write ad i seg a

-- `LossyFdAdapter<AdaptT>`, which hands everything else on.
unfoldable pub lossy_adapter :
    {A : Type 0} → (A → FdAdapterConfig) → (ℕ → ℕ) → Adapter A → Adapter A
lossy_adapter config random ad = record {
  descriptor = Adapter.descriptor ad;
  read = λ i a. Adapter.read ad i a >>= λ r. ok (lossy_read (config r.1) (random i) r.0, r.1);
  write = λ i seg a. pass_on ad i (lossy_write (config a) (random i) seg) a;
  tick = Adapter.tick ad;
  configure = Adapter.configure ad;
  set_listening = Adapter.set_listening ad;
}
