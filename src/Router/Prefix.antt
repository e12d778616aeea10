-- ===== src/Router/Prefix.antt =====
-- Does a route's prefix match an address?
use cs144_sponge.Base.{
  ℕ, ◌+◌, ◌-◌, ◌*◌, ◌/◌, ◌%◌, ◌^◌, ◌≤◌, ◌<◌, ◌≡◌, ap, sym, ◌∙◌, ◌↔◌, Bool, true, ◌==◌, ==_iff,
  ◌>>=◌, ok, arith, IsU32, u32, and_high_bits, power_pos, power_add,
}
use Prim.Native.Nat.{bit_and}
use native.Mathlib.Nat.{mul-sub, div-lt_iff_lt-mul}
use cs144_sponge.Router.{Route, construct_binary_with_ones, matches}

-- A prefix of an IPv4 address.
pub record IsRoute (t : Route) : Type 0 where
  pub prefix_fits : IsU32 t.route_prefix
  pub length_fits : t.prefix_length ≤ 32

-- The first `prefix_length` of the 32 bits are the same.
abbrev pub Covers : Route → ℕ → Type 0
Covers t dst = t.route_prefix / 2 ^ (32 - t.prefix_length) ≡ dst / 2 ^ (32 - t.prefix_length)

split_32 : (n : ℕ) → n ≤ 32 → 2 ^ n * 2 ^ (32 - n) ≡ 2 ^ 32
split_32 n h =
    let e : n + (32 - n) ≡ 32 = omega (arith, h) in power_add n (32 - n) ∙ ap (λ k. 2 ^ k) e

top_bits : (n x : ℕ) → n ≤ 32 → IsU32 x → x / 2 ^ (32 - n) < 2 ^ n
top_bits n x h lt =
    (div-lt_iff_lt-mul {k = 2 ^ (32 - n)} (power_pos (32 - n))).1 (omega (arith, split_32 n h, lt))

ones_fit : (n : ℕ) → n ≤ 32 → (2 ^ n - 1) * 2 ^ (32 - n) < 2 ^ 32
ones_fit n h = grind (arith, split_32 n h, mul-sub (2 ^ (32 - n)) (2 ^ n) 1, power_pos (32 - n))

mask_32 :
    (n : ℕ)
    → n ≤ 32
    → (m : ℕ) × (construct_binary_with_ones n ≡ ok m) × (u32 m ≡ (2 ^ n - 1) * 2 ^ (32 - n))
unfolding construct_binary_with_ones
mask_32 n h =
    (((2 ^ n - 1) * 2 ^ (32 - n)) % 2 ^ 64, ground (arith, h), omega (arith, ones_fit n h))

-- The mask is built and compared without undefined behaviour, and the comparison decides whether the
-- address has the route's prefix.
pub matches_prefix :
    (t : Route) (dst : ℕ)
    → IsRoute t
    → IsU32 dst
    → (b : Bool) × (matches t dst ≡ ok b) × ((b ≡ true) ↔ Covers t dst)
unfolding matches
matches_prefix t dst v lt =
    let n : ℕ = t.prefix_length in
    let (m, made, e) = mask_32 n v.length_fits in
    let (to, from) =
      and_high_bits n (32 - n) t.route_prefix dst
        (top_bits n t.route_prefix v.length_fits v.prefix_fits) (top_bits n dst v.length_fits lt) in
    (
      bit_and t.route_prefix (u32 m) == bit_and dst (u32 m),
      ap (λ r. r >>= λ ones. ok (bit_and t.route_prefix (u32 ones) == bit_and dst (u32 ones))) made,
      (
        λ h. to (ap (bit_and t.route_prefix) (sym e) ∙ (==_iff _ _).0 h ∙ ap (bit_and dst) e),
        λ h. (==_iff _ _).1 (ap (bit_and t.route_prefix) e ∙ from h ∙ ap (bit_and dst) (sym e)),
      ),
    )
