-- ===== src/TcpSpongeSocket/Lossy.antt =====
-- Adapters that lose segments.
use cs144_sponge.Base.{ℕ, ◌≡◌, refl, true, false, Bool-cases, inl, inr, Option, none, some, ok}
use cs144_sponge.WrappingIntegers.{WrappingInt32}
use cs144_sponge.TcpSegment.{TcpSegment}
use cs144_sponge.TcpSender.Plain.{IsPlain}
use cs144_sponge.FdAdapter.{FdAdapterConfig, should_drop, lossy_read, lossy_write}
use cs144_sponge.TcpSpongeSocket.{Adapter}
use cs144_sponge.TcpSpongeSocket.Adapters.{pass_on, lossy_adapter}
use cs144_sponge.TcpSpongeSocket.Callbacks.{Carries, FromPeer}

still_peers :
    (s : ℕ → ℕ) (isn : WrappingInt32) (cfg : FdAdapterConfig) (random : ℕ) (o : Option TcpSegment)
    → FromPeer s isn o
    → FromPeer s isn (lossy_read cfg random o)
unfolding lossy_read
still_peers s isn cfg random o p = elim (Bool-cases (should_drop cfg false random)) [
  | inl e ↦ rw e tt
  | inr e ↦ rw e p
]

abbrev PlainIfAny : Option TcpSegment → Type 0
PlainIfAny none = Unit {0}
PlainIfAny (some seg) = IsPlain seg

still_plain :
    (cfg : FdAdapterConfig) (random : ℕ) (seg : TcpSegment)
    → IsPlain seg
    → PlainIfAny (lossy_write cfg random seg)
unfolding lossy_write
still_plain cfg random seg p = elim (Bool-cases (should_drop cfg true random)) [
  | inl e ↦ rw e tt
  | inr e ↦ rw e p
]

passed_on :
    {A : Type 0} (ad : Adapter A) (s : ℕ → ℕ) (isn : WrappingInt32) (Q : A → Type 0)
    → Carries ad s isn Q
    → (i : ℕ) (o : Option TcpSegment) (a : A) → PlainIfAny o
    → Q a
    → (a' : A) × (pass_on ad i o a ≡ ok a') × Q a'
unfolding pass_on
passed_on ad s isn Q v i none a p q = (a, refl, q)
passed_on ad s isn Q v i (some seg) a p q = v.writes i seg a p q

-- An adapter that loses segments is as well as the one that it loses them of.
pub lossy_adapter-Carries :
    {A : Type 0} (config : A → FdAdapterConfig) (random : ℕ → ℕ) (ad : Adapter A) (s : ℕ → ℕ)
    (isn : WrappingInt32) (Q : A → Type 0)
    → Carries ad s isn Q
    → Carries (lossy_adapter config random ad) s isn Q
unfolding lossy_adapter
lossy_adapter-Carries config random ad s isn Q v = record {
  reads = λ i a q.
      let (o, a', e, p, q', counted) = v.reads i a q in
      (
        lossy_read (config a') (random i) o,
        a',
        rw e,
        still_peers s isn (config a') (random i) o p,
        q',
        counted,
      );
  writes = λ i seg a p q.
      passed_on ad s isn Q v i (lossy_write (config a) (random i) seg) a
        (still_plain (config a) (random i) seg p) q;
  ticks = v.ticks;
}
