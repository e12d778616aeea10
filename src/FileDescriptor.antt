-- ===== src/FileDescriptor.antt =====
-- libsponge/util/file_descriptor.{hh,cc}, with `SystemCall` of util.cc: a file descriptor's flags and
-- counters, reading and writing. The kernel's answers are arguments.
pub mod Write
pub mod Streams
mod Examples
use cs144_sponge.Base.{
  ℕ, zero, suc, ◌+◌, ◌*◌, Bool, true, false, not, ◌&&◌, ◌||◌, List, [], ◌∷◌, ◌++◌, length, take,
  min, ltb, ◌==◌, if◌then◌else◌, u32, Result, ok, err, runtime_error, unix_error, out_of_fuel,
  ◌>>=◌,
}
use cs144_sponge.BufferViewList
use cs144_sponge.BufferViewList.{BufferViewList}
use cs144_sponge.BufferViewList.Laws.{bytes}

-- What a system call returns: a number, or a negative one with an `errno`.
pub data Answer : Type 0 where
  returned : ℕ → Answer
  failed : (errno : ℕ) → Answer

-- With the mask 0, which no failing call sets `errno` to.
unfoldable pub system_call : Answer → Result ℕ
system_call (returned n) = ok n
system_call (failed errno) = err unix_error

-- `FileDescriptor::FDWrapper`, which all handles share.
pub record FdWrapper : Type 0 where
  pub fd : ℕ
  pub eof : Bool
  pub closed : Bool
  pub read_count : ℕ
  pub write_count : ℕ

-- `FDWrapper(fd)` for the number that a system call gave.
unfoldable pub new : Answer → Result FdWrapper
new (returned fd) =
    ok (record { fd = fd; eof = false; closed = false; read_count = 0; write_count = 0 })
new (failed errno) = err runtime_error

unfoldable pub close : Answer → FdWrapper → Result FdWrapper
close answer f = system_call answer >>= λ _. ok (record f { eof = true; closed = true })

unfoldable pub register_read : FdWrapper → FdWrapper
register_read f = record f { read_count = u32 (f.read_count + 1) }

unfoldable pub register_write : FdWrapper → FdWrapper
register_write f = record f { write_count = u32 (f.write_count + 1) }

-- The bytes that `read` puts into the string, or an `errno`.
pub data Reading : Type 0 where
  gave : List ℕ → Reading
  no_read : (errno : ℕ) → Reading

abbrev pub buffer_size : ℕ
buffer_size = 1024 * 1024

unfoldable pub read : FdWrapper → ℕ → Reading → Result (List ℕ × FdWrapper)
unfolding register_read
read f limit (no_read errno) = err unix_error
read f limit (gave str) =
    let f' : FdWrapper = record f { eof = f.eof || (ltb 0 limit && length str == 0) } in
    if ltb (min buffer_size limit) (length str)
    then err runtime_error
    else ok (str, register_read f')

-- The bytes written, which of them the kernel took, and the descriptor.
abbrev pub Written : Type 0
Written = ℕ × List ℕ × FdWrapper

-- The loop of `write`, on fuel. `writev` is the kernel's answer in each round to so many bytes.
unfoldable pub write_from :
    (ℕ → ℕ → Answer) → Bool → ℕ → ℕ → BufferViewList → Written → Result Written
unfolding register_write
write_from writev write_all zero i buffer w = err out_of_fuel
write_from writev write_all (suc fuel) i buffer w =
    system_call (writev i (BufferViewList.size buffer)) >>= λ bytes_written.
    if bytes_written == 0 && not (BufferViewList.size buffer == 0)
    then err runtime_error
    else if ltb (BufferViewList.size buffer) bytes_written
    then err runtime_error
    else (BufferViewList.remove_prefix buffer bytes_written >>= λ rest.
        let w' : Written =
          (w.0 + bytes_written, w.1 ++ take bytes_written (bytes buffer), register_write w.2) in
        let more = write_from writev write_all fuel (i + 1) rest w' in
        if write_all && not (BufferViewList.size rest == 0) then more else ok w')

-- Each round but the last takes a byte at least.
unfoldable pub write : (ℕ → ℕ → Answer) → FdWrapper → BufferViewList → Bool → Result Written
write writev f buffer write_all =
    write_from writev write_all (suc (BufferViewList.size buffer)) 0 buffer (0, [], f)
