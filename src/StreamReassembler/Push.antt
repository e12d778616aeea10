-- ===== src/StreamReassembler/Push.antt =====
-- `push_substring` as a whole: whatever arrives, the output is what the source has.
use cs144_sponge.Base.{
  ℕ, suc, ◌+◌, ◌<◌, ◌^◌, ◌≡◌, refl, sym, Bool, true, false, ◌&&◌, List, [], ◌∷◌, ◌++◌, arith,
  length, Bool-cases, ◌==◌, inl, inr, ok, append-nil, IsU64, add64,
}
use cs144_sponge.ByteStream
use cs144_sponge.ByteStream.{ByteStream}
use cs144_sponge.ByteStream.Inv as Stream
use cs144_sponge.ByteStream.Inv.{contents}
use cs144_sponge.StreamReassembler.{
  StreamReassembler, Entries, HashOrder, Assembly, new, note_end, finish, enter, reassemble,
  push_substring,
}
use cs144_sponge.StreamReassembler.Source.{Agrees, Agrees-nil}
use cs144_sponge.StreamReassembler.Entries.{Every}
use cs144_sponge.StreamReassembler.Enter.{keys-Reusable, Carries, enter-Fits}
use cs144_sponge.StreamReassembler.Pass.{Fits, passes_ok}

-- What holds of a reassembler between two calls, when all it was given is part of the source `s`.
pub record Inv (s : ℕ → ℕ) (r : StreamReassembler) : Type 0 where
  pub stream : Stream.Inv r.output
  pub stored : Every (Fits s) r.reassembler
  pub ahead : Every (λ k v. r.willing < k) r.reassembler
  pub willing_fits : IsU64 r.willing
  pub count_fits : IsU64 r.bytes_writed
  pub total : r.output.bytes_w ≡ r.willing

-- What a call of `push_substring` does: `new` is written behind what is buffered, and continues the
-- source.
pub record Pushed (s : ℕ → ℕ) (r r' : StreamReassembler) : Type 0 where
  pub valid : Inv s r'
  pub new : List ℕ
  pub appended : contents r'.output ≡ contents r.output ++ new
  pub agrees : Agrees s r.willing new
  pub moved : r'.willing ≡ r.willing + length new
  pub capacity : r'.output.m_capacity ≡ r.output.m_capacity

module _ (s : ℕ → ℕ) where
  finish-Pushed : (r r' : StreamReassembler) → Pushed s r r' → Pushed s r (finish r')
  unfolding finish ByteStream.end_input contents
  finish-Pushed r r' p = elim (Bool-cases (r'.end_flag && r'.bytes_writed == r'.total_write)) [
    | inl e ↦
        rw (e, finish)
          record {
            valid = record {
              stream = unfold contents in ground (arith, p.valid.stream);
              stored = p.valid.stored;
              ahead = p.valid.ahead;
              willing_fits = p.valid.willing_fits;
              count_fits = p.valid.count_fits;
              total = p.valid.total;
            };
            new = p.new;
            appended = p.appended;
            agrees = p.agrees;
            moved = p.moved;
            capacity = p.capacity;
          }
    | inr e ↦ rw (e, finish) p
  ]

  note_end-Inv :
      (last : ℕ) (eof : Bool) (r : StreamReassembler) → Inv s r → Inv s (note_end last eof r)
  unfolding note_end
  note_end-Inv last true r v = record {
    stream = v.stream;
    stored = v.stored;
    ahead = v.ahead;
    willing_fits = v.willing_fits;
    count_fits = v.count_fits;
    total = v.total;
  }
  note_end-Inv last false r v = v

  Pushed-none : (r : StreamReassembler) → Inv s r → Pushed s r r
  Pushed-none r v = record {
    valid = v;
    new = [];
    appended = sym (append-nil (contents r.output));
    agrees = Agrees-nil s r.willing;
    moved = omega arith;
    capacity = refl;
  }

  module _ (h : HashOrder) where
    reassemble-Pushed :
        (m : Entries) (r : StreamReassembler)
        → Every (Fits s) m
        → Inv s r
        → (r' : StreamReassembler) × (reassemble m r ≡ ok r') × Pushed s r r'
    unfolding reassemble
    reassemble-Pushed m r f v =
        let a : Assembly = record {
          output = r.output;
          willing = r.willing;
          bytes_writed = r.bytes_writed;
        } in
        let (p, e, w, k, b) =
          passes_ok s (suc (length m)) m a (omega arith) f v.willing_fits v.count_fits v.stream in
        let r' : StreamReassembler = record r {
          output = p.1.output;
          willing = p.1.willing;
          bytes_writed = p.1.bytes_writed;
          reassembler = p.0;
        } in
        (
          finish r',
          rw e,
          finish-Pushed r r' (record {
            valid = record {
              stream = w.valid;
              stored = k;
              ahead = b;
              willing_fits = w.willing_fits;
              count_fits = w.count_fits;
              total = omega (arith, w.totalled, w.moved, w.willing_fits, v.total);
            };
            new = w.new;
            appended = w.appended;
            agrees = w.agrees;
            moved = w.moved;
            capacity = w.capacity;
          }),
        )

    -- after a note
    Pushed-note :
        (last : ℕ) (eof : Bool) (r r' : StreamReassembler)
        → Pushed s (note_end last eof r) r'
        → Pushed s r r'
    unfolding note_end
    Pushed-note last true r r' p = record {
      valid = p.valid;
      new = p.new;
      appended = p.appended;
      agrees = p.agrees;
      moved = p.moved;
      capacity = p.capacity;
    }
    Pushed-note last false r r' p = p

    push_filled :
        (d : List ℕ) (index : ℕ) (r : StreamReassembler)
        → Carries s index d
        → Inv s r
        → (r' : StreamReassembler) × (reassemble (enter h d index r) r ≡ ok r') × Pushed s r r'
    push_filled d index r c v =
        reassemble-Pushed (enter h d index r) r
          (enter-Fits s h d index r c v.stored
            (keys-Reusable s r.willing r.reassembler v.stored v.ahead))
          v

    -- A substring of the source is taken in without an exception or running out of rounds: the output
    -- grows by bytes of the source that continue what was written before, and the invariant is kept.
    pub push_substring-Pushed :
        (d : List ℕ) (index : ℕ) (eof : Bool) (r : StreamReassembler)
        → Agrees s index d
        → index + length d < 2 ^ 64
        → Inv s r
        → (r' : StreamReassembler) × (push_substring h d index eof r ≡ ok r') × Pushed s r r'
    unfolding push_substring
    push_substring-Pushed [] index eof r a fits v =
        let r' : StreamReassembler = note_end (add64 index 0) eof r in
        let v' : Inv s r' = note_end-Inv _ eof r v in
        (finish r', refl, Pushed-note _ eof r _ (finish-Pushed r' r' (Pushed-none r' v')))
    push_substring-Pushed (x ∷ d) index eof r a fits v =
        let r' : StreamReassembler = note_end (add64 index (length (x ∷ d))) eof r in
        let v' : Inv s r' = note_end-Inv _ eof r v in
        let (q, e, p) = push_filled (x ∷ d) index r' (omega arith, fits, a) v' in
        (q, e, Pushed-note _ eof r q p)

pub new-Inv : (s : ℕ → ℕ) (capacity : ℕ) → IsU64 capacity → Inv s (new capacity)
unfolding new
new-Inv s capacity h = record {
  stream = Stream.new-Inv capacity h;
  stored = tt;
  ahead = tt;
  willing_fits = omega arith;
  count_fits = omega arith;
  total = unfold ByteStream.new in refl;
}
