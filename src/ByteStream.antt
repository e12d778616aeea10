-- ===== src/ByteStream.antt =====
-- libsponge/byte_stream.{hh,cc}: the flow-controlled byte stream in memory.
pub mod Inv
pub mod History
mod Examples
use cs144_sponge.Base.{
  ℕ, ◌+◌, ◌-◌, ◌%◌, ◌^◌, Bool, true, false, ◌&&◌, List, [], ltb, leb, ◌==◌, if◌then◌else◌, length,
  take, add64, sub64, Result, ok, ◌>>=◌,
}
use cs144_sponge.BufferList
use cs144_sponge.BufferList.{BufferList}

pub record ByteStream : Type 0 where
  pub end_flag : Bool
  pub m_capacity : ℕ
  pub size : ℕ
  pub stream : BufferList
  pub bytes_w : ℕ
  pub bytes_r : ℕ
  pub has_error : Bool

-- `ByteStream(capacity)`
unfoldable pub new : ℕ → ByteStream
new capacity = record {
  end_flag = false;
  m_capacity = capacity;
  size = 0;
  stream = [];
  bytes_w = 0;
  bytes_r = 0;
  has_error = false;
}

unfoldable pub remaining_capacity : ByteStream → ℕ
remaining_capacity s = sub64 s.m_capacity s.size

-- The count that was written, and the stream after.
unfoldable pub write : List ℕ → ByteStream → ℕ × ByteStream
unfolding remaining_capacity
write d s =
    let n = if leb (remaining_capacity s) (length d) then remaining_capacity s else length d in
    if s.end_flag then (0, s) else (
      n,
      record s {
        stream = BufferList.append s.stream (BufferList.of_string (take n d));
        size = add64 s.size n;
        bytes_w = add64 s.bytes_w n;
      },
    )

unfoldable pub peek_output : ByteStream → ℕ → List ℕ
peek_output s len = take len (BufferList.concatenate s.stream)

unfoldable pub pop_output : ByteStream → ℕ → Result ByteStream
pop_output s len = BufferList.remove_prefix s.stream len >>= λ rest.
    ok (record s { stream = rest; size = sub64 s.size len; bytes_r = add64 s.bytes_r len })

-- The bytes read, and the stream after.
unfoldable pub read : ByteStream → ℕ → Result (List ℕ × ByteStream)
unfolding peek_output pop_output
read s len =
    let n = if leb s.size len then s.size else len in
    pop_output s n >>= λ s'. ok (peek_output s n, s')

unfoldable pub end_input : ByteStream → ByteStream
end_input s = record s { end_flag = true }

unfoldable pub set_error : ByteStream → ByteStream
set_error s = record s { has_error = true }

unfoldable pub input_ended : ByteStream → Bool
input_ended s = s.end_flag

unfoldable pub buffer_size : ByteStream → ℕ
buffer_size s = s.size

unfoldable pub buffer_empty : ByteStream → Bool
buffer_empty s = s.size == 0

unfoldable pub eof : ByteStream → Bool
eof s = s.end_flag && s.size == 0

unfoldable pub error : ByteStream → Bool
error s = s.has_error

unfoldable pub bytes_written : ByteStream → ℕ
bytes_written s = s.bytes_w

unfoldable pub bytes_read : ByteStream → ℕ
bytes_read s = s.bytes_r
