-- ===== src/BufferViewList.antt =====
-- `BufferViewList` of libsponge/util/buffer.{hh,cc}: views of strings, for system calls.
-- A view is the list of the bytes that it shows. Sizes stay below 2^64.
pub mod Laws
use cs144_sponge.Base.{
  ℕ, ◌+◌, ◌-◌, List, [], ◌∷◌, length, drop, ltb, ◌==◌, if◌then◌else◌, Result, ok, err, out_of_range,
}
use cs144_sponge.Buffer
use cs144_sponge.BufferList.{BufferList}

abbrev pub BufferViewList : Type 0
BufferViewList = List (List ℕ)

-- `BufferViewList(const std::string &)`
unfoldable pub of_string : List ℕ → BufferViewList
of_string s = s ∷ []

-- `BufferViewList(const BufferList &)`
unfoldable pub of_buffers : BufferList → BufferViewList
of_buffers [] = []
of_buffers (b ∷ bs) = Buffer.str b ∷ of_buffers bs

-- Each round of the loop takes one view off or ends.
unfoldable pub remove_prefix : BufferViewList → ℕ → Result BufferViewList
remove_prefix [] n = if n == 0 then ok [] else err out_of_range
remove_prefix (v ∷ vs) n =
    let rest = remove_prefix vs (n - length v) in
    if n == 0 then ok (v ∷ vs) else if ltb n (length v) then ok (drop n v ∷ vs) else rest

size_from : ℕ → BufferViewList → ℕ
size_from ret [] = ret
size_from ret (v ∷ vs) = size_from (ret + length v) vs

unfoldable pub size : BufferViewList → ℕ
unfolding size_from
size vs = size_from 0 vs

-- What the kernel is shown.
unfoldable pub as_iovecs : BufferViewList → List (List ℕ)
as_iovecs [] = []
as_iovecs (v ∷ vs) = v ∷ as_iovecs vs
