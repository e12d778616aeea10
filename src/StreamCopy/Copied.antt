-- ===== src/StreamCopy/Copied.antt =====
-- One direction of the copy: what was read, what is buffered and what was written.
use cs144_sponge.Base.{
  ℕ, ◌≤◌, ◌≡◌, refl, sym, ap, ap₂, ◌∙◌, Bool, true, false, inl, inr, Bool-cases, List, [], ◌++◌,
  arith, length, take, drop, min, ◌==◌, append_assoc, append-nil, take-append-drop, take_all, ok,
  if◌then◌else◌,
}
use cs144_sponge.ByteStream
use cs144_sponge.ByteStream.{ByteStream}
use cs144_sponge.ByteStream.Inv as Stream
use cs144_sponge.ByteStream.Inv.{
  contents, accepted, Left, pop_output_ok, write-Inv, write-contents, end_flag-write, new-Inv,
}
use cs144_sponge.BufferViewList
use cs144_sponge.BufferViewList.Laws.{bytes}
use cs144_sponge.FileDescriptor
use cs144_sponge.FileDescriptor.{
  Answer, returned, Reading, gave, FdWrapper, Written, system_call, register_read, register_write,
}
use cs144_sponge.FileDescriptor.Write.{Takes, write_some_sends}
use cs144_sponge.FileDescriptor.Streams.{counted_read, after_read, read_gave, taken_low}
use cs144_sponge.StreamCopy.{Half, end_half, fill, drain, max_copy_length}

-- What was given and what is buffered are the beginning of what was taken, and all of it while the
-- stream has not been ended.
pub record Copies (h : Half) : Type 0 where
  pub valid : Stream.Inv h.stream
  pub lost : List ℕ
  pub copied : h.taken ≡ (h.given ++ contents h.stream) ++ lost
  pub kept : h.stream.end_flag ≡ false → lost ≡ []

-- A read gives no more than was asked for.
abbrev pub Gives : (ℕ → Reading) → Type 0
Gives answer =
    (limit : ℕ)
    → (d : List ℕ) × (answer limit ≡ gave d) × (length d ≤ min FileDescriptor.buffer_size limit)

pub end_half-Copies : (h : Half) → Copies h → Copies (end_half h)
unfolding ByteStream.end_input contents
end_half-Copies h v = record {
  valid = record {
    sized = v.valid.sized;
    bounded = v.valid.bounded;
    capacity_fits = v.valid.capacity_fits;
    read_fits = v.valid.read_fits;
    counted = v.valid.counted;
  };
  lost = v.lost;
  copied = v.copied;
  kept = λ e. ground (arith, e);
}

lost_more :
    (taken given before after lost d : List ℕ)
    → taken ≡ (given ++ before) ++ lost
    → after ≡ before
    → taken ++ d ≡ (given ++ after) ++ (lost ++ d)
lost_more taken given before after lost d e same =
    ap (λ t. t ++ d) e
    ∙ append_assoc (given ++ before) lost d
    ∙ ap (λ b. (given ++ b) ++ (lost ++ d)) (sym same)

kept_all :
    (taken given before after lost d : List ℕ)
    → taken ≡ (given ++ before) ++ lost
    → lost ≡ []
    → after ≡ before ++ d
    → taken ++ d ≡ (given ++ after) ++ []
kept_all taken given before after lost d e none same =
    ap (λ t. t ++ d) (e ∙ ap (λ l. (given ++ before) ++ l) none ∙ append-nil (given ++ before))
    ∙ append_assoc given before d
    ∙ ap (λ b. given ++ b) (sym same)
    ∙ sym (append-nil (given ++ after))

written_ended :
    (d : List ℕ) (o : ByteStream)
    → Stream.Inv o
    → o.end_flag ≡ true
    → contents (ByteStream.write d o).1 ≡ contents o
written_ended d o v e =
    let none : accepted o d ≡ 0 = ground (arith, e) in
    write-contents d v ∙ ap (λ n. contents o ++ take n d) none ∙ append-nil (contents o)

written_all :
    (d : List ℕ) (o : ByteStream)
    → Stream.Inv o
    → o.end_flag ≡ false
    → length d ≤ ByteStream.remaining_capacity o
    → contents (ByteStream.write d o).1 ≡ contents o ++ d
unfolding ByteStream.remaining_capacity
written_all d o v e fits =
    let all : accepted o d ≡ length d = ground (arith, e, fits) in
    write-contents d v
    ∙ ap (λ n. contents o ++ take n d) all
    ∙ ap (λ r. contents o ++ r) (take_all (length d) d (omega arith))

-- What a write leaves of the bytes that were read.
write-Copies :
    (d : List ℕ) (h : Half)
    → Copies h
    → length d ≤ ByteStream.remaining_capacity h.stream
    → Copies (record h { stream = (ByteStream.write d h.stream).1; taken = h.taken ++ d })
write-Copies d h v fits = elim (Bool-cases h.stream.end_flag) [
  | inl e ↦ record {
    valid = write-Inv d v.valid;
    lost = v.lost ++ d;
    copied = lost_more h.taken h.given _ _ v.lost d v.copied (written_ended d h.stream v.valid e);
    kept = λ k. ground (arith, e, k, end_flag-write d h.stream);
  }
  | inr e ↦ record {
    valid = write-Inv d v.valid;
    lost = [];
    copied =
        kept_all h.taken h.given _ _ v.lost d v.copied (v.kept e)
          (written_all d h.stream v.valid e fits);
    kept = λ k. refl;
  }
]

or_end-Copies : (b : Bool) (h : Half) → Copies h → Copies (if b then end_half h else h)
or_end-Copies true h v = end_half-Copies h v
or_end-Copies false h v = v

pub fill-Copies :
    (answer : ℕ → Reading) (fd : FdWrapper) (h : Half)
    → Gives answer
    → Copies h
    → (f' : FdWrapper) × (h' : Half) × (fill answer fd h ≡ ok (f', h'))
      × Copies h'
      × ((fd.read_count == f'.read_count) ≡ false)
unfolding fill register_read
fill-Copies answer fd h gives v =
    let limit : ℕ = ByteStream.remaining_capacity h.stream in
    let (d, e, fits) = gives limit in
    let h1 : Half = record h { stream = (ByteStream.write d h.stream).1; taken = h.taken ++ d } in
    let f1 : FdWrapper = after_read fd limit d in
    (
      f1,
      if f1.eof then end_half h1 else h1,
      rw (e, read_gave fd limit d fits),
      or_end-Copies f1.eof h1 (write-Copies d h v (omega (arith, fits))),
      counted_read fd.read_count,
    )

-- What is drained moves from the stream to the descriptor.
drained :
    (n : ℕ) (h : Half) (o : ByteStream) (sent : List ℕ)
    → Left h.stream (drop n (contents h.stream)) o
    → sent ≡ take n (contents h.stream)
    → Copies h
    → Copies (record h { stream = o; given = h.given ++ sent })
drained n h o sent l e v = record {
  valid = l.valid;
  lost = v.lost;
  copied =
      v.copied
      ∙ ap (λ r. r ++ v.lost)
          (ap (λ r. h.given ++ r) (sym (take-append-drop n (contents h.stream)))
            ∙ sym (append_assoc h.given _ _)
            ∙ ap₂ (λ x y. (h.given ++ x) ++ y) (sym e) (sym l.buffered));
  kept = λ k. v.kept (sym l.ended ∙ k);
}

pub drain-Copies :
    (writev : ℕ → ℕ → Answer) (fd : FdWrapper) (h : Half)
    → ((round size : ℕ) → Takes size (writev round size))
    → Copies h
    → (h' : Half) × (drain writev fd h ≡ ok (register_write fd, h')) × Copies h'
unfolding drain
drain-Copies writev fd h takes v =
    let m : ℕ = min max_copy_length (ByteStream.buffer_size h.stream) in
    let views : BufferViewList.BufferViewList =
      BufferViewList.of_string (ByteStream.peek_output h.stream m) in
    let t : Takes (BufferViewList.size views) (writev 0 (BufferViewList.size views)) =
      takes 0 (BufferViewList.size views) in
    let (low, shown) = taken_low h.stream m (Takes.taken t) v.valid (Takes.at_most t) in
    let (o, e, l) = pop_output_ok (Takes.taken t) v.valid low in
    (
      record h { stream = o; given = h.given ++ take (Takes.taken t) (bytes views) },
      rw (write_some_sends writev fd views t, e),
      drained (Takes.taken t) h o _ l shown v,
    )
