-- ===== src/TcpReceiver/Session.antt =====
-- A receiver between a peer that numbers its bytes from an initial number, and a reader.
use cs144_sponge.Base.{
  ℕ, ◌+◌, ◌-◌, ◌<◌, ◌^◌, ◌≡◌, refl, sym, ap, subst, ◌∙◌, Bool, true, false, ◌||◌, Option, none,
  some, List, [], ◌∷◌, ◌++◌, arith, length, All, Result, ok, ◌>>=◌, take, drop, sub64,
  if◌then◌else◌, IsU32, IsU64,
}
use cs144_sponge.WrappingIntegers.{WrappingInt32, wrap, unwrap}
use cs144_sponge.WrappingIntegers.Absolute.{unwrap-wrap_young, wrap-add64}
use cs144_sponge.Buffer
use cs144_sponge.ByteStream
use cs144_sponge.ByteStream.Inv.{contents, Left, read_ok}
use cs144_sponge.StreamReassembler.{HashOrder}
use cs144_sponge.StreamReassembler.Source.{Agrees}
use cs144_sponge.StreamReassembler.Push.{push_substring-Pushed}
use cs144_sponge.StreamReassembler.Session as Reassembly
use cs144_sponge.StreamReassembler.Session.{Faithful, push-Faithful, read-Faithful, start-Faithful}
use cs144_sponge.TcpSegment.{TcpSegment}
use cs144_sponge.TcpReceiver.{
  TcpReceiver, new, stream_index, accept, segment_received, ackno_from, ackno, window_size,
}

-- A segment that arrives, with the hash map's order meanwhile, or a read by the owner of the stream.
pub data Event : Type 0 where
  arrives : HashOrder → TcpSegment → Event
  reads : ℕ → Event

-- The bytes that the reader got, and the receiver.
pub record Session : Type 0 where
  pub given : List ℕ
  pub receiver : TcpReceiver

pub step : Session → Event → Result Session
step t (arrives h seg) = segment_received h seg t.receiver >>= λ r. ok (record t { receiver = r })
step t (reads n) = ByteStream.read t.receiver.reassembler.output n >>= λ p. ok (record {
  given = t.given ++ p.0;
  receiver = record (t.receiver) { reassembler = record (t.receiver.reassembler) { output = p.1 } };
})

pub run : Session → List Event → Result Session
unfolding step
run t [] = ok t
run t (c ∷ cs) = step t c >>= λ t'. run t' cs

abbrev pub start : ℕ → Session
start capacity = record { given = []; receiver = new capacity }

-- Where in the source the payload `v` of a segment stands.
abbrev pub Place : (ℕ → ℕ) → WrappingInt32 → Bool → WrappingInt32 → List ℕ → Type 0
Place s isn true seqno v = (seqno ≡ isn) × (length v < 2 ^ 32) × Agrees s 0 v
Place s isn false seqno v =
    (k : ℕ) × (seqno ≡ wrap (k + 1) isn) × (k + 1 + length v < 2 ^ 32) × Agrees s k v

-- A segment of the peer: the SYN carries the initial number, any other one the number of its first
-- byte, below 2^32 absolute.
abbrev pub IsGenuine : (ℕ → ℕ) → WrappingInt32 → Event → Type 0
IsGenuine s isn (arrives h seg) =
    Place s isn seg.header.syn seg.header.seqno (Buffer.str seg.payload)
IsGenuine s isn (reads n) = Unit {0}

abbrev pub is_syn : Event → Bool
is_syn (arrives h seg) = seg.header.syn
is_syn (reads n) = false

abbrev pub has_syn : List Event → Bool
has_syn [] = false
has_syn (c ∷ cs) = is_syn c || has_syn cs

-- The initial number as far as it is known.
abbrev pub known : Bool → WrappingInt32 → Option WrappingInt32
known true isn = some isn
known false isn = none

index_ok :
    (s : ℕ → ℕ) (isn seqno : WrappingInt32) (syn : Bool) (v : List ℕ)
    → IsU32 isn
    → Place s isn syn seqno v
    → Agrees s (stream_index syn seqno isn) v × (stream_index syn seqno isn + length v < 2 ^ 64)
unfolding stream_index
index_ok s isn seqno true v h p = (p.2, omega (arith, p.1))
index_ok s isn seqno false v h (k, e, lt, a) =
    let at : unwrap seqno isn 0 ≡ k + 1 =
      ap (λ x. unwrap x isn 0) e ∙ unwrap-wrap_young (k + 1) isn h (omega arith) in
    let same : sub64 (unwrap seqno isn 0) 1 ≡ k = omega (arith, at, lt) in
    (subst (λ i. Agrees s i v) (sym same) a, omega (arith, same, lt))

known_after :
    (s : ℕ → ℕ) (isn seqno : WrappingInt32) (syn b : Bool) (v : List ℕ)
    → Place s isn syn seqno v
    → (if syn then some seqno else known b isn) ≡ known (b || syn) isn
known_after s isn seqno true true v p = ap some p.0
known_after s isn seqno true false v p = ap some p.0
known_after s isn seqno false true v p = refl
known_after s isn seqno false false v p = refl

or_false : (b : Bool) → (b || false) ≡ b
or_false true = refl
or_false false = refl

or_assoc : (a b c : Bool) → ((a || b) || c) ≡ (a || (b || c))
or_assoc true b c = refl
or_assoc false b c = refl

abbrev pub reassembly : Session → Reassembly.Session
reassembly t = record { given = t.given; reassembler = t.receiver.reassembler }

-- What holds between two calls; `b` is whether a SYN has come.
pub record Hears (s : ℕ → ℕ) (isn : WrappingInt32) (capacity : ℕ) (b : Bool) (t : Session)
    : Type 0 where
  pub faithful : Faithful s capacity (reassembly t)
  pub heard : t.receiver.isn ≡ known b isn
  pub size : t.receiver.capacity ≡ capacity

module _ (s : ℕ → ℕ) (isn : WrappingInt32) (capacity : ℕ) (small : IsU32 isn) where
  accept-Hears :
      (h : HashOrder) (seg : TcpSegment) (b : Bool) (t : Session)
      → Faithful s capacity (reassembly t)
      → Place s isn seg.header.syn seg.header.seqno (Buffer.str seg.payload)
      → t.receiver.capacity ≡ capacity
      → t.receiver.isn ≡ known b isn
      → (r : TcpReceiver) × (accept h seg (known b isn) t.receiver ≡ ok r)
        × Hears s isn capacity b (record t { receiver = r })
  unfolding accept
  accept-Hears h seg false t f p c k =
      (t.receiver, refl, record { faithful = f; heard = k; size = c })
  accept-Hears h seg true t f p c k =
      let v : List ℕ = Buffer.str seg.payload in
      let (a, lt) = index_ok s isn seg.header.seqno seg.header.syn v small p in
      let (q, e, w) =
        push_substring-Pushed s h v (stream_index seg.header.syn seg.header.seqno isn)
          seg.header.fin t.receiver.reassembler a lt f.valid in
      (
        record (t.receiver) { reassembler = q },
        rw e,
        record { faithful = push-Faithful s capacity (reassembly t) q f w; heard = k; size = c },
      )

  pub read-Hears :
      (n : ℕ) (b : Bool) (t : Session) (out : ByteStream.ByteStream)
      → Hears s isn capacity b t
      → Left t.receiver.reassembler.output (drop n (contents t.receiver.reassembler.output)) out
      → Hears s isn capacity b (record {
        given = t.given ++ take n (contents t.receiver.reassembler.output);
        receiver = record (t.receiver) {
          reassembler = record (t.receiver.reassembler) { output = out };
        };
      })
  read-Hears n b t out v l = record {
    faithful = read-Faithful s capacity n (reassembly t) out v.faithful l;
    heard = v.heard;
    size = v.size;
  }

  pub segment_received-Hears :
      (h : HashOrder) (seg : TcpSegment) (b : Bool) (t : Session)
      → Place s isn seg.header.syn seg.header.seqno (Buffer.str seg.payload)
      → Hears s isn capacity b t
      → (r : TcpReceiver) × (segment_received h seg t.receiver ≡ ok r)
        × Hears s isn capacity (b || seg.header.syn) (record t { receiver = r })
  unfolding segment_received
  segment_received-Hears h seg b t p v =
      let next : Option WrappingInt32 =
        if seg.header.syn then some seg.header.seqno else t.receiver.isn in
      let e : next ≡ known (b || seg.header.syn) isn =
        ap (λ o. if seg.header.syn then some seg.header.seqno else o) v.heard
        ∙ known_after s isn seg.header.seqno seg.header.syn b (Buffer.str seg.payload) p in
      let (r, q, w) =
        accept-Hears h seg (b || seg.header.syn)
          (record t { receiver = record (t.receiver) { isn = next } }) v.faithful p v.size e in
      (r, ap (λ o. accept h seg o (record (t.receiver) { isn = next })) e ∙ q, w)

  step-Hears :
      (b : Bool) (t : Session) (c : Event)
      → IsGenuine s isn c
      → Hears s isn capacity b t
      → (t' : Session) × (step t c ≡ ok t') × Hears s isn capacity (b || is_syn c) t'
  unfolding step
  step-Hears b t (arrives h seg) p v =
      let (r, e, w) = segment_received-Hears h seg b t p v in (record t { receiver = r }, rw e, w)
  step-Hears b t (reads n) p v =
      let (out, e, l) = read_ok n v.faithful.valid.stream in
      let t' : Session = record {
        given = t.given ++ take n (contents t.receiver.reassembler.output);
        receiver = record (t.receiver) {
          reassembler = record (t.receiver.reassembler) { output = out };
        };
      } in
      (
        t',
        rw e,
        subst (λ x. Hears s isn capacity x t') (sym (or_false b)) (read-Hears n b t out v l),
      )

  run-Hears :
      (b : Bool) (t : Session) (cs : List Event)
      → All (IsGenuine s isn) cs
      → Hears s isn capacity b t
      → (t' : Session) × (run t cs ≡ ok t') × Hears s isn capacity (b || has_syn cs) t'
  unfolding run
  run-Hears b t [] ps v = (t, refl, subst (λ x. Hears s isn capacity x t) (sym (or_false b)) v)
  run-Hears b t (c ∷ cs) ps v =
      let (t', e, v') = step-Hears b t c ps.0 v in
      let (t'', e', v'') = run-Hears (b || is_syn c) t' cs ps.1 v' in
      (
        t'',
        rw e e',
        subst (λ x. Hears s isn capacity x t'') (or_assoc b (is_syn c) (has_syn cs)) v'',
      )

ackno_ok :
    (s : ℕ → ℕ) (isn : WrappingInt32) (capacity : ℕ) (b : Bool) (t : Session)
    → Hears s isn capacity b t
    → ackno t.receiver ≡ (
        if b
        then some (
            wrap
              (length (t.given ++ contents t.receiver.reassembler.output)
                + 1
                + (if ByteStream.input_ended t.receiver.reassembler.output then 1 else 0))
              isn)
        else none)
unfolding ackno ackno_from ByteStream.bytes_written
ackno_ok s isn capacity true t v =
    let out : ByteStream.ByteStream = t.receiver.reassembler.output in
    let end : ℕ = if ByteStream.input_ended out then 1 else 0 in
    ap (λ o. ackno_from o out) v.heard
    ∙ ap some (
        wrap-add64 out.bytes_w end isn
        ∙ ap (λ n. wrap (n + 1 + end) isn) (v.faithful.valid.total ∙ sym v.faithful.counted))
ackno_ok s isn capacity false t v = ap (λ o. ackno_from o t.receiver.reassembler.output) v.heard

pub start-Hears :
    (s : ℕ → ℕ) (isn : WrappingInt32) (capacity : ℕ)
    → IsU64 capacity
    → Hears s isn capacity false (start capacity)
unfolding new
start-Hears s isn capacity h = record {
  faithful = start-Faithful s capacity h;
  heard = refl;
  size = refl;
}

window_size_ok :
    (s : ℕ → ℕ) (isn : WrappingInt32) (capacity : ℕ) (b : Bool) (t : Session)
    → Hears s isn capacity b t
    → window_size t.receiver ≡ capacity - length (contents t.receiver.reassembler.output)
unfolding window_size ByteStream.buffer_size
window_size_ok s isn capacity b t v =
    let w = v.faithful.valid.stream in
    omega (arith, v.size, w.sized, w.bounded, w.capacity_fits, v.faithful.capacity_same)

-- A peer sends a source `s` of bytes in segments, numbered from `isn` and below 2^32 absolute, which
-- arrive in any order, overlap or come again. From a new receiver any history of these and of reads
-- runs without an exception. What the reader got and what is buffered is the beginning of `s`;
-- before the first SYN there is no acknowledgement, afterwards it is the number that follows these
-- bytes and the SYN, and the FIN once the stream has ended; the window is the room that is left.
pub run_acknowledges :
    (s : ℕ → ℕ) (isn : WrappingInt32) (capacity : ℕ) (cs : List Event)
    → IsU32 isn
    → IsU64 capacity
    → All (IsGenuine s isn) cs
    → (t : Session) × (run (start capacity) cs ≡ ok t)
      × Agrees s 0 (t.given ++ contents t.receiver.reassembler.output)
      × (ackno t.receiver ≡ (
          if has_syn cs
          then some (
              wrap
                (length (t.given ++ contents t.receiver.reassembler.output)
                  + 1
                  + (if ByteStream.input_ended t.receiver.reassembler.output then 1 else 0))
                isn)
          else none))
      × (window_size t.receiver ≡ capacity - length (contents t.receiver.reassembler.output))
run_acknowledges s isn capacity cs small h ps =
    let (t, e, v) =
      run-Hears s isn capacity small false (start capacity) cs ps (start-Hears s isn capacity h) in
    (
      t,
      e,
      v.faithful.agrees,
      ackno_ok s isn capacity (has_syn cs) t v,
      window_size_ok s isn capacity (has_syn cs) t v,
    )
