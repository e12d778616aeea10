-- ===== src/BufferList.antt =====
-- `BufferList` of libsponge/util/buffer.{hh,cc}: a string in several buffers.
-- Sizes of what lies in memory stay below 2^64, so their sums do not wrap.
pub mod Laws
use cs144_sponge.Base.{
  ℕ, ◌+◌, ◌-◌, List, [], ◌∷◌, ◌++◌, ltb, ◌==◌, if◌then◌else◌, Result, ok, err, out_of_range,
  runtime_error, ◌>>=◌,
}
use cs144_sponge.Buffer
use cs144_sponge.Buffer.{Buffer}

-- The deque, front first.
abbrev pub BufferList : Type 0
BufferList = List Buffer

-- `BufferList(std::string &&)`
unfoldable pub of_string : List ℕ → BufferList
of_string s = Buffer.of_string s ∷ []

unfoldable pub append : BufferList → BufferList → BufferList
append xs [] = xs
append xs (b ∷ bs) = append (xs ++ (b ∷ [])) bs

concatenate_from : List ℕ → BufferList → List ℕ
concatenate_from ret [] = ret
concatenate_from ret (b ∷ bs) = concatenate_from (ret ++ Buffer.str b) bs

unfoldable pub concatenate : BufferList → List ℕ
unfolding concatenate_from
concatenate bs = concatenate_from [] bs

size_from : ℕ → BufferList → ℕ
size_from ret [] = ret
size_from ret (b ∷ bs) = size_from (ret + Buffer.size b) bs

unfoldable pub size : BufferList → ℕ
unfolding size_from
size bs = size_from 0 bs

-- `operator Buffer()`
unfoldable pub to_buffer : BufferList → Result Buffer
to_buffer [] = ok Buffer.empty
to_buffer (b ∷ []) = ok b
to_buffer (b ∷ c ∷ bs) = err runtime_error

-- Each round of the loop takes one buffer off or ends.
unfoldable pub remove_prefix : BufferList → ℕ → Result BufferList
remove_prefix [] n = if n == 0 then ok [] else err out_of_range
remove_prefix (b ∷ bs) n =
    let rest = remove_prefix bs (n - Buffer.size b) in
    if n == 0
    then ok (b ∷ bs)
    else if ltb n (Buffer.size b)
    then (Buffer.remove_prefix b n >>= λ b'. ok (b' ∷ bs))
    else rest
