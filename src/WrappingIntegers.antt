-- ===== src/WrappingIntegers.antt =====
-- libsponge/wrapping_integers.{hh,cc}: 32-bit sequence numbers and 64-bit absolute ones.
pub mod Absolute
mod Examples
use cs144_sponge.Base.{
  ℕ, ◌+◌, ◌-◌, ◌*◌, ◌/◌, ◌%◌, ◌^◌, Bool, ◌&&◌, ◌||◌, ltb, leb, if◌then◌else◌, u32, u64,
}

-- A `WrappingInt32` is its raw value.
abbrev pub WrappingInt32 : Type 0
WrappingInt32 = ℕ

-- `operator+(WrappingInt32, uint32_t)`; an operand that is wider is cut to 32 bits by the call.
unfoldable pub plus : WrappingInt32 → ℕ → WrappingInt32
plus a b = u32 (a + u32 b)

-- `operator-(WrappingInt32, uint32_t)`, which adds the negated operand.
unfoldable pub minus : WrappingInt32 → ℕ → WrappingInt32
unfolding plus
minus a b = plus a (u32 (2 ^ 32 - u32 b))

-- `WrappingInt32(a - b).raw_value()`: the `int32_t` difference read back as its bit pattern.
unfoldable pub difference : WrappingInt32 → WrappingInt32 → ℕ
difference a b = u32 (a + 2 ^ 32 - b)

abbrev pub max_number : ℕ
max_number = 2 ^ 32

unfoldable pub wrap : ℕ → WrappingInt32 → WrappingInt32
unfolding plus
wrap n isn = plus isn (n % max_number)

-- The test of the first branch: the offset `a` is within half a period of `b`. `b - max_number / 2`
-- is read only where it does not wrap.
abbrev is_near : ℕ → ℕ → Bool
is_near a b =
    (leb a b && (leb b (max_number / 2) || leb (b - max_number / 2) a))
    || (ltb b a && (leb (max_number / 2) b || leb a (b + max_number / 2)))

unfoldable pub unwrap : WrappingInt32 → WrappingInt32 → ℕ → ℕ
unfolding difference
unwrap n isn checkpoint =
    let times = checkpoint / max_number in
    let a = difference n isn in
    let b = checkpoint % max_number in
    if is_near a b
    then u64 (times * max_number + a)
    else if leb a b
    then u64 ((times + 1) * max_number + a)
    else if ltb times 1
    then u64 (times * max_number + a)
    else u64 ((times - 1) * max_number + a)
