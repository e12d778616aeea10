-- ===== src/FileDescriptor/Streams.antt =====
-- Bytes between a stream in memory and a descriptor.
use cs144_sponge.Base.{
  ℕ, ◌+◌, ◌≤◌, ◌≡◌, ap, ◌∙◌, false, ◌&&◌, ◌||◌, List, arith, length, take, min, ltb, ◌==◌, u32,
  length-take, take-take, ok,
}
use cs144_sponge.BufferViewList
use cs144_sponge.BufferViewList.Laws.{bytes, size-bytes, bytes-of_string}
use cs144_sponge.ByteStream
use cs144_sponge.ByteStream.{ByteStream}
use cs144_sponge.ByteStream.Inv as Stream
use cs144_sponge.ByteStream.Inv.{contents, Left, pop_output_ok}
use cs144_sponge.FileDescriptor
use cs144_sponge.FileDescriptor.{
  Answer, returned, Reading, gave, FdWrapper, Written, system_call, register_read, register_write,
  buffer_size,
}

pub counted_read : (n : ℕ) → (n == u32 (n + 1)) ≡ false
counted_read n = ground arith

pub counted_twice : (n : ℕ) → (n == u32 (u32 (n + 1) + 1)) ≡ false
counted_twice n = ground arith

-- A read that gives what it may is counted.
abbrev pub after_read : FdWrapper → ℕ → List ℕ → FdWrapper
unfolding register_read
after_read f limit d = register_read (record f { eof = f.eof || (ltb 0 limit && length d == 0) })

pub read_gave :
    (f : FdWrapper) (limit : ℕ) (d : List ℕ)
    → length d ≤ min buffer_size limit
    → FileDescriptor.read f limit (gave d) ≡ ok (d, after_read f limit d)
unfolding FileDescriptor.read
read_gave f limit d h =
    let e : ltb (min buffer_size limit) (length d) ≡ false = ground (arith, h) in rw e

-- A stream that has not been ended takes what there is room for.
pub accepts_all :
    (d : List ℕ) (o : ByteStream)
    → Stream.Inv o
    → o.end_flag ≡ false
    → length d ≤ ByteStream.remaining_capacity o
    → (ByteStream.write d o).0 ≡ length d
unfolding ByteStream.remaining_capacity
accepts_all d o v e h = Stream.write-count d v ∙ ground (arith, e, h)

-- What is taken of the bytes that are shown is a beginning of what is buffered.
pub taken_low :
    (o : ByteStream) (m n : ℕ)
    → Stream.Inv o
    → n ≤ BufferViewList.size (BufferViewList.of_string (ByteStream.peek_output o m))
    → (n ≤ o.size)
      × (take n (bytes (BufferViewList.of_string (ByteStream.peek_output o m)))
          ≡ take n (contents o))
unfolding ByteStream.peek_output contents
taken_low o m n v h =
    let buffer : List ℕ = take m (contents o) in
    let size : BufferViewList.size (BufferViewList.of_string buffer) ≡ length buffer =
      size-bytes _ ∙ ap length (bytes-of_string buffer) in
    let fits : n ≤ min m (length (contents o)) =
      omega (arith, h, size, length-take m (contents o)) in
    let least : min n m ≡ n = omega (arith, fits) in
    (
      omega (arith, fits, v.sized),
      ap (λ b. take n b) (bytes-of_string buffer)
          ∙ take-take n m (contents o)
          ∙ ap (λ k. take k (contents o)) least,
    )
