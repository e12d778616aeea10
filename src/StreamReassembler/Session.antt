-- ===== src/StreamReassembler/Session.antt =====
-- A reassembler between a network that delivers substrings in any order and a reader.
use cs144_sponge.Base.{
  ℕ, ◌+◌, ◌<◌, ◌^◌, ◌≡◌, refl, sym, ap, subst, ◌∙◌, Bool, List, [], ◌∷◌, ◌++◌, arith, length, All,
  Result, ok, ◌>>=◌, take, drop, take-append-drop, append_assoc, length-append, IsU64,
}
use cs144_sponge.BufferList
use cs144_sponge.ByteStream
use cs144_sponge.ByteStream.Inv.{contents, Left, read_ok}
use cs144_sponge.StreamReassembler.{StreamReassembler, HashOrder, new, push_substring}
use cs144_sponge.StreamReassembler.Source.{Agrees, Agrees-nil, Agrees-append}
use cs144_sponge.StreamReassembler.Push.{Inv, Pushed, push_substring-Pushed, new-Inv}

-- A call: a substring with its index and end flag, and the hash map's order during the call; or a
-- read by the owner of the output.
pub data Call : Type 0 where
  pushes : HashOrder → List ℕ → ℕ → Bool → Call
  reads : ℕ → Call

-- The bytes that the reader got, and the reassembler.
pub record Session : Type 0 where
  pub given : List ℕ
  pub reassembler : StreamReassembler

pub step : Session → Call → Result Session
step t (pushes h d index eof) =
    push_substring h d index eof t.reassembler >>= λ r. ok (record t { reassembler = r })
step t (reads n) = ByteStream.read t.reassembler.output n >>= λ p.
    ok (record { given = t.given ++ p.0; reassembler = record (t.reassembler) { output = p.1 } })

pub run : Session → List Call → Result Session
unfolding step
run t [] = ok t
run t (c ∷ cs) = step t c >>= λ t'. run t' cs

abbrev pub start : ℕ → Session
start capacity = record { given = []; reassembler = new capacity }

-- A push of a part of the source, at a position that fits 64 bits.
abbrev pub IsPart : (ℕ → ℕ) → Call → Type 0
IsPart s (pushes h d index eof) = Agrees s index d × (index + length d < 2 ^ 64)
IsPart s (reads n) = Unit {0}

-- All that left the reassembler or waits to be read.
abbrev pub outcome : Session → List ℕ
outcome t = t.given ++ contents t.reassembler.output

pub record Faithful (s : ℕ → ℕ) (capacity : ℕ) (t : Session) : Type 0 where
  pub valid : Inv s t.reassembler
  pub agrees : Agrees s 0 (outcome t)
  pub counted : length (outcome t) ≡ t.reassembler.willing
  pub capacity_same : t.reassembler.output.m_capacity ≡ capacity

pub start-Faithful :
    (s : ℕ → ℕ) (capacity : ℕ) → IsU64 capacity → Faithful s capacity (start capacity)
unfolding new ByteStream.new contents BufferList.concatenate
start-Faithful s capacity h = record {
  valid = new-Inv s capacity h;
  agrees = Agrees-nil s 0;
  counted = refl;
  capacity_same = refl;
}

module _ (s : ℕ → ℕ) (capacity : ℕ) where
  pub push-Faithful :
      (t : Session) (r : StreamReassembler)
      → Faithful s capacity t
      → Pushed s t.reassembler r
      → Faithful s capacity (record t { reassembler = r })
  push-Faithful t r f p =
      let e : outcome (record t { reassembler = r }) ≡ outcome t ++ p.new =
        ap (λ b. t.given ++ b) p.appended ∙ sym (append_assoc t.given _ p.new) in
      let next : Agrees s (0 + length (outcome t)) p.new =
        subst (λ k. Agrees s k p.new) (omega (arith, f.counted)) p.agrees in
      record {
        valid = p.valid;
        agrees = subst (Agrees s 0) (sym e) (Agrees-append s 0 (outcome t) p.new f.agrees next);
        counted = ap length e ∙ length-append (outcome t) p.new ∙ omega (arith, f.counted, p.moved);
        capacity_same = p.capacity ∙ f.capacity_same;
      }

  pub read-Faithful :
      (n : ℕ) (t : Session) (out : ByteStream.ByteStream)
      → Faithful s capacity t
      → Left t.reassembler.output (drop n (contents t.reassembler.output)) out
      → Faithful s capacity (record {
        given = t.given ++ take n (contents t.reassembler.output);
        reassembler = record (t.reassembler) { output = out };
      })
  read-Faithful n t out f l =
      let c : List ℕ = contents t.reassembler.output in
      let e : (t.given ++ take n c) ++ contents out ≡ outcome t =
        ap (λ b. (t.given ++ take n c) ++ b) l.buffered
        ∙ append_assoc t.given (take n c) (drop n c)
        ∙ ap (λ b. t.given ++ b) (take-append-drop n c) in
      record {
        valid = record {
          stream = l.valid;
          stored = f.valid.stored;
          ahead = f.valid.ahead;
          willing_fits = f.valid.willing_fits;
          count_fits = f.valid.count_fits;
          total = l.written ∙ f.valid.total;
        };
        agrees = subst (Agrees s 0) (sym e) f.agrees;
        counted = ap length e ∙ f.counted;
        capacity_same = l.capacity ∙ f.capacity_same;
      }

  step-Faithful :
      (t : Session) (c : Call)
      → IsPart s c
      → Faithful s capacity t
      → (t' : Session) × (step t c ≡ ok t') × Faithful s capacity t'
  unfolding step
  step-Faithful t (pushes h d index eof) part f =
      let (r, e, p) = push_substring-Pushed s h d index eof t.reassembler part.0 part.1 f.valid in
      (record t { reassembler = r }, rw e, push-Faithful t r f p)
  step-Faithful t (reads n) part f =
      let (out, e, l) = read_ok n f.valid.stream in (_, rw e, read-Faithful n t out f l)

  run-Faithful :
      (t : Session) (cs : List Call)
      → All (IsPart s) cs
      → Faithful s capacity t
      → (t' : Session) × (run t cs ≡ ok t') × Faithful s capacity t'
  unfolding run
  run-Faithful t [] parts f = (t, refl, f)
  run-Faithful t (c ∷ cs) parts f =
      let (t', e, f') = step-Faithful t c parts.0 f in
      let (t'', e', f'') = run-Faithful t' cs parts.1 f' in (t'', rw e e', f'')

-- Take a source `s` of bytes, and from a new reassembler any history of pushes of parts of `s`, in any
-- order and overlapping in any way, and of reads. No call throws or runs out of rounds, and what the
-- reader was given followed by what is buffered is the beginning of `s`, with no gap and no byte
-- changed; its length is the next index that is awaited.
pub run_faithful :
    (s : ℕ → ℕ) (capacity : ℕ) (cs : List Call)
    → IsU64 capacity
    → All (IsPart s) cs
    → (t : Session) × (run (start capacity) cs ≡ ok t)
      × Agrees s 0 (t.given ++ contents t.reassembler.output)
      × (length (t.given ++ contents t.reassembler.output) ≡ t.reassembler.willing)
run_faithful s capacity cs h parts =
    let (t, e, f) =
      run-Faithful s capacity (start capacity) cs parts (start-Faithful s capacity h) in
    (t, e, f.agrees, f.counted)
