-- ===== src/NetworkInterface/Run.antt =====
-- Any sequence of calls of an interface.
use cs144_sponge.Base.{ℕ, ◌+◌, ◌≡◌, ◌⊎◌, Option, none, [], ok, find}
use cs144_sponge.EthernetHeader.{EthernetAddress}
use cs144_sponge.EthernetFrame.{EthernetFrame}
use cs144_sponge.Ipv4Datagram.{Ipv4Datagram}
use cs144_sponge.NetworkInterface.{NetworkInterface, new, send_datagram, recv_frame, tick}
use cs144_sponge.NetworkInterface.Flushed.{
  Flushed, waiting, new-Flushed, send_datagram-Flushed, recv_frame-Flushed, tick-Flushed,
}

-- From a state to a state in so many milliseconds, by calls that throw no exception.
pub data Run : NetworkInterface → ℕ → NetworkInterface → Type 0 where
  done : {n : NetworkInterface} → Run n 0 n
  sent :
      {n m k : NetworkInterface} {t : ℕ} (d : Ipv4Datagram) (ip : ℕ)
      → send_datagram n d ip ≡ ok m
      → Run m t k
      → Run n t k
  received :
      {n m k : NetworkInterface} {t : ℕ} (f : EthernetFrame) (r : Option Ipv4Datagram)
      → recv_frame n f ≡ ok (r, m)
      → Run m t k
      → Run n t k
  ticked : {n k : NetworkInterface} {t : ℕ} (ms : ℕ) → Run (tick n ms) t k → Run n (ms + t) k

pub Run-Flushed : {n m : NetworkInterface} {t : ℕ} → Run n t m → Flushed n → Flushed m
Run-Flushed done h = h
Run-Flushed {n} (sent {m = m} d ip e r) h = Run-Flushed r (send_datagram-Flushed n m d ip h e)
Run-Flushed {n} (received {m = m} f o e r) h = Run-Flushed r (recv_frame-Flushed n m f o h e)
Run-Flushed {n} (ticked ms r) h = Run-Flushed r (tick-Flushed n ms h)

-- After any sequence of calls and of frames that arrive on a new interface, as long as none of the calls
-- throws an exception, no datagram waits for an address that the interface knows.
pub known_not_waiting :
    {m : NetworkInterface} {t : ℕ} (mac : EthernetAddress) (own ip : ℕ)
    → Run (new mac own) t m
    → (find ip m.cache_map ≡ none) ⊎ (waiting m ip ≡ [])
known_not_waiting mac own ip r = Run-Flushed r (new-Flushed mac own) ip
