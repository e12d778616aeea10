-- ===== src/Buffer.antt =====
-- libsponge/util/buffer.{hh,cc}: reference-counted strings that discard bytes from the front.
-- A string is the list of its bytes. The reference count is not modelled: nothing reads it, and
-- the shared string is never written.
pub mod Laws
use cs144_sponge.Base.{
  ℕ, ◌+◌, Option, none, some, List, [], length, get_elem?, drop, ltb, ◌==◌, if◌then◌else◌, Result,
  ok, err, out_of_range,
}

pub record Buffer : Type 0 where
  pub storage : Option (List ℕ)
  pub starting_offset : ℕ

-- `Buffer()`
unfoldable pub empty : Buffer
empty = record { storage = none; starting_offset = 0 }

-- `Buffer(std::string &&)`
unfoldable pub of_string : List ℕ → Buffer
of_string s = record { storage = some s; starting_offset = 0 }

view : Option (List ℕ) → ℕ → List ℕ
view none offset = []
view (some s) offset = drop offset s

-- The bytes that are left; `copy` and the conversion to a view give the same.
unfoldable pub str : Buffer → List ℕ
unfolding view
str b = view b.storage b.starting_offset

unfoldable pub size : Buffer → ℕ
unfolding str
size b = length (str b)

unfoldable pub at : Buffer → ℕ → Result ℕ
unfolding str
at b n = elim (get_elem? (str b) n) [ none ↦ err out_of_range | some x ↦ ok x ]

-- The storage is let go when the offset has reached its end.
release : Option (List ℕ) → ℕ → Buffer
release none offset = record { storage = none; starting_offset = offset }
release (some s) offset =
    if offset == length s
    then record { storage = none; starting_offset = offset }
    else record { storage = some s; starting_offset = offset }

-- `Buffer::remove_prefix`
unfoldable pub remove_prefix : Buffer → ℕ → Result Buffer
unfolding str release
remove_prefix b n =
    if ltb (length (str b)) n
    then err out_of_range
    else ok (release b.storage (b.starting_offset + n))
