-- ===== src/TcpConnection/History.antt =====
-- A connection between a peer, its owner and the clock.
use cs144_sponge.Base.{
  ℕ, ◌≡◌, refl, ap, ◌∙◌, Bool, true, false, inl, inr, ◌⊎◌, List, [], ◌∷◌, ◌++◌, All, Result, ok,
  err, not, ◌>>=◌, take, IsU32, IsU64,
}
use cs144_sponge.WrappingIntegers.{WrappingInt32}
use cs144_sponge.ByteStream
use cs144_sponge.ByteStream.Inv.{contents, read_ok}
use cs144_sponge.StreamReassembler.{HashOrder}
use cs144_sponge.StreamReassembler.Source.{Agrees}
use cs144_sponge.TcpSegment.{TcpSegment}
use cs144_sponge.TcpReceiver.Session.{start-Hears, read-Hears}
use cs144_sponge.TcpSender.Safe.{new-Safe}
use cs144_sponge.TcpConnection.{
  TcpConnection, TcpConfig, new, active, segment_received, write, end_input_stream, connect, tick,
}
use cs144_sponge.TcpConnection.Sound.{Sound, IsGenuine}
use cs144_sponge.TcpConnection.Sound.Arrival.{segment_received-Sound, segment_received-rst}
use cs144_sponge.TcpConnection.Sound.Calls.{
  write-Sound, end_input_stream-Sound, connect-Sound, tick-Sound,
}

-- A segment from the network, with the hash map's order meanwhile; the calls of the owner; a tick of
-- so many milliseconds.
pub data Call : Type 0 where
  receives : HashOrder → TcpSegment → Call
  connects ends : Call
  writes : List ℕ → Call
  reads ticks : ℕ → Call

-- The bytes that the owner read, and the connection.
pub record Session : Type 0 where
  pub given : List ℕ
  pub connection : TcpConnection

-- The owner reads from `inbound_stream`.
pub read_inbound : ℕ → Session → Result Session
read_inbound n t =
    let c = t.connection in
    ByteStream.read c.receiver.reassembler.output n >>= λ p. ok (record {
      given = t.given ++ p.0;
      connection = record c {
        receiver = record (c.receiver) {
          reassembler = record (c.receiver.reassembler) { output = p.1 };
        };
      };
    })

pub step : Session → Call → Result Session
unfolding read_inbound
step t (receives h seg) =
    segment_received h seg t.connection >>= λ c. ok (record t { connection = c })
step t connects = connect t.connection >>= λ c. ok (record t { connection = c })
step t ends = end_input_stream t.connection >>= λ c. ok (record t { connection = c })
step t (writes d) = write d t.connection >>= λ p. ok (record t { connection = p.1 })
step t (reads n) = read_inbound n t
step t (ticks ms) = tick ms t.connection >>= λ c. ok (record t { connection = c })

pub run : Session → List Call → Result Session
unfolding step
run t [] = ok t
run t (c ∷ cs) = step t c >>= λ t'. run t' cs

abbrev pub start : TcpConfig → WrappingInt32 → Session
start cfg random = record { given = []; connection = new cfg random }

abbrev pub IsPeer : (ℕ → ℕ) → WrappingInt32 → Call → Type 0
IsPeer s isn (receives h seg) = IsGenuine s isn seg
IsPeer s isn connects = Unit {0}
IsPeer s isn ends = Unit {0}
IsPeer s isn (writes d) = Unit {0}
IsPeer s isn (reads n) = Unit {0}
IsPeer s isn (ticks ms) = Unit {0}

module _ (s : ℕ → ℕ) (isn : WrappingInt32) (capacity : ℕ) (small : IsU32 isn) (b : Bool) where
  abbrev Is : Session → Type 0
  Is t = Sound s isn capacity t.given b t.connection

  read_inbound-Sound :
      (n : ℕ) (t : Session) → Is t → (t' : Session) × (read_inbound n t ≡ ok t') × Is t'
  unfolding read_inbound
  read_inbound-Sound n t v =
      let c : TcpConnection = t.connection in
      let (out, e, l) = read_ok n v.hears.faithful.valid.stream in
      let t' : Session = record {
        given = t.given ++ take n (contents c.receiver.reassembler.output);
        connection = record c {
          receiver = record (c.receiver) {
            reassembler = record (c.receiver.reassembler) { output = out };
          };
        };
      } in
      (
        t',
        rw e,
        record {
          seen = v.seen;
          hears = read-Hears s isn capacity small n v.seen _ out v.hears l;
          safe = v.safe;
          shut = v.shut;
        },
      )

  step-Sound :
      (t : Session) (c : Call) → IsPeer s isn c → Is t → (t' : Session) × (step t c ≡ ok t') × Is t'
  unfolding step
  step-Sound t (receives h seg) p v =
      let (c, e, w) =
        segment_received-Sound s isn capacity small t.given b h seg t.connection p v in
      (record t { connection = c }, rw e, w)
  step-Sound t connects p v =
      let (c, e, w) = connect-Sound s isn capacity small t.given b t.connection v in
      (record t { connection = c }, rw e, w)
  step-Sound t ends p v =
      let (c, e, w) = end_input_stream-Sound s isn capacity small t.given b t.connection v in
      (record t { connection = c }, rw e, w)
  step-Sound t (writes d) p v =
      let (n, c, e, w) = write-Sound s isn capacity small t.given b d t.connection v in
      (record t { connection = c }, rw e, w)
  step-Sound t (reads n) p v = read_inbound-Sound n t v
  step-Sound t (ticks ms) p v =
      let (c, e, w) = tick-Sound s isn capacity small t.given b ms t.connection v in
      (record t { connection = c }, rw e, w)

  run-Sound :
      (t : Session) (cs : List Call)
      → All (IsPeer s isn) cs
      → Is t
      → (t' : Session) × (run t cs ≡ ok t') × Is t'
  unfolding run
  run-Sound t [] ps v = (t, refl, v)
  run-Sound t (c ∷ cs) ps v =
      let (t', e, v') = step-Sound t c ps.0 v in
      let (t'', e', v'') = run-Sound t' cs ps.1 v' in (t'', rw e e', v'')

pub new-Sound :
    (s : ℕ → ℕ) (isn : WrappingInt32) (cfg : TcpConfig) (random : WrappingInt32)
    → IsU64 cfg.recv_capacity
    → IsU64 cfg.send_capacity
    → Sound s isn cfg.recv_capacity [] false (new cfg random)
unfolding new
new-Sound s isn cfg random hr hs = record {
  seen = false;
  hears = start-Hears s isn cfg.recv_capacity hr;
  safe = new-Safe cfg.send_capacity cfg.rt_timeout _ hs;
  shut = inl refl;
}

-- A peer sends a source `s` of bytes in segments numbered from `isn` and below 2^32 absolute, in any
-- order and as often as it likes, with any flags, acknowledgements and windows. From a new connection
-- any history of such segments, of ticks, and of the owner's calls runs without an exception, and what
-- the owner read followed by what is buffered is the beginning of `s`.
pub run_sound :
    (s : ℕ → ℕ) (isn : WrappingInt32) (cfg : TcpConfig) (random : WrappingInt32) (cs : List Call)
    → IsU32 isn
    → IsU64 cfg.recv_capacity
    → IsU64 cfg.send_capacity
    → All (IsPeer s isn) cs
    → (t : Session) × (run (start cfg random) cs ≡ ok t)
      × Agrees s 0 (t.given ++ contents t.connection.receiver.reassembler.output)
run_sound s isn cfg random cs small hr hs ps =
    let (t, e, v) =
      run-Sound s isn cfg.recv_capacity small false (start cfg random) cs ps
        (new-Sound s isn cfg random hr hs) in
    (t, e, v.hears.faithful.agrees)

on_result :
    (m : Result Session) (f g k : Session → Result Session)
    → ((t : Session) → f t ≡ (g t >>= k))
    → (m >>= f) ≡ ((m >>= g) >>= k)
on_result (ok t) f g k h = h t
on_result (err e) f g k h = refl

run-append : (cs ds : List Call) (t : Session) → run t (cs ++ ds) ≡ (run t cs >>= λ t'. run t' ds)
unfolding run
run-append [] ds t = refl
run-append (c ∷ cs) ds t = on_result (step t c) _ _ _ (run-append cs ds)

closed : (t : Session) → (true ≡ false) ⊎ (t.connection.close ≡ true) → active t.connection ≡ false
unfolding active
closed t (inl e) = cc
closed t (inr e) = ap not e

-- An RST kills the connection for good, in every state, also in LISTEN and SYN_SENT, with or without an
-- acknowledgement, and whether its number lies in the window or not: with a segment of the peer that has the flag anywhere in
-- such a history, the connection is not active at its end, whatever calls, ticks and segments follow.
pub rst_kills :
    (s : ℕ → ℕ) (isn : WrappingInt32) (cfg : TcpConfig) (random : WrappingInt32)
    (before after : List Call) (h : HashOrder) (seg : TcpSegment)
    → IsU32 isn
    → IsU64 cfg.recv_capacity
    → IsU64 cfg.send_capacity
    → All (IsPeer s isn) before
    → IsGenuine s isn seg
    → All (IsPeer s isn) after
    → seg.header.rst ≡ true
    → (t : Session) × (run (start cfg random) (before ++ (receives h seg ∷ after)) ≡ ok t)
      × (active t.connection ≡ false)
unfolding run step
rst_kills s isn cfg random before after h seg small hr hs ps p qs rst =
    let n : ℕ = cfg.recv_capacity in
    let (t1, e1, v1) =
      run-Sound s isn n small false (start cfg random) before ps
        (new-Sound s isn cfg random hr hs) in
    let (c2, e2, v2) =
      segment_received-rst s isn n small t1.given false h seg t1.connection p rst v1 in
    let t2 : Session = record t1 { connection = c2 } in
    let (t3, e3, v3) = run-Sound s isn n small true t2 after qs v2 in
    (
      t3,
      run-append before (receives h seg ∷ after) (start cfg random)
          ∙ ap (λ m. m >>= λ t'. run t' (receives h seg ∷ after)) e1
          ∙ rw e2 e3,
      closed t3 v3.shut,
    )
