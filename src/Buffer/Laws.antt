-- ===== src/Buffer/Laws.antt =====
-- A buffer through the bytes that are left in it.
use cs144_sponge.Base.{
  ℕ, ◌+◌, ◌≤◌, ◌<◌, ◌≡◌, refl, sym, Option, none, some, List, length, drop, arith, ok, err,
  out_of_range, ◌==◌, Bool-cases, inl, inr, drop-drop, drop-nil, drop_all, ==_iff,
}
use cs144_sponge.Buffer.{Buffer, of_string, str, view, release, remove_prefix}

pub str-of_string : (s : List ℕ) → str (of_string s) ≡ s
unfolding str of_string
str-of_string s = refl

str-release :
    (o : Option (List ℕ)) (offset n : ℕ) → str (release o (offset + n)) ≡ drop n (view o offset)
unfolding str release
str-release none offset n = sym (drop-nil n)
str-release (some s) offset n = elim (Bool-cases ((offset + n) == length s)) [
  | inl e ↦ rw (e, drop-drop) (sym (drop_all (offset + n) s (omega (arith, (==_iff _ _).0 e))))
  | inr e ↦ rw (e, drop-drop)
]

-- Removing no more bytes than are left drops exactly those.
pub remove_prefix_ok :
    (b : Buffer) (n : ℕ)
    → n ≤ length (str b)
    → (b' : Buffer) × (remove_prefix b n ≡ ok b') × (str b' ≡ drop n (str b))
unfolding remove_prefix
remove_prefix_ok b n h = (
  release b.storage (b.starting_offset + n),
  ground arith,
  str-release b.storage b.starting_offset n,
)

pub remove_prefix_err :
    (b : Buffer) (n : ℕ) → length (str b) < n → remove_prefix b n ≡ err out_of_range
unfolding remove_prefix
remove_prefix_err b n h = ground arith
