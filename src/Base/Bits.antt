-- ===== src/Base/Bits.antt =====
-- `&` with a mask of high bits compares the bits above the mask's zeros.
use Prim.Native.Nat.{
  ℕ, zero, suc, ◌+◌, ◌-◌, ◌*◌, ◌/◌, ◌%◌, ◌^◌, ◌≤◌, ◌<◌, min, bit_and, bit_and-bitwise, digits,
}
use mathlib.Core.Path.{◌≡◌, refl, sym, ap, ◌∙◌}
use mathlib.Core.Logic.{◌↔◌}
use native.Mathlib.Nat.{mul_assoc, mul_left_comm, div-div-eq-div-mul}
use native.Mathlib.Omega.{arith}

-- Fuel beyond the first number's size changes nothing.
enough_digits :
    (n m a b : ℕ) → a ≤ n → a ≤ m → digits (λ b. zero) min n a b ≡ digits (λ b. zero) min m a b
enough_digits zero zero a b h k = refl
enough_digits zero (suc m) zero b h k = refl
enough_digits zero (suc m) (suc a) b h k = absurd (omega arith)
enough_digits (suc n) zero zero b h k = refl
enough_digits (suc n) zero (suc a) b h k = absurd (omega arith)
enough_digits (suc n) (suc m) zero b h k = refl
enough_digits (suc n) (suc m) (suc a) b h k =
    omega (arith, enough_digits n m (suc a / 2) (b / 2) (omega arith) (omega arith))

zero_and : (b : ℕ) → bit_and 0 b ≡ 0
zero_and b = bit_and-bitwise 0 b

-- The last digit apart.
and_last : (a b : ℕ) → bit_and a b ≡ bit_and (a / 2) (b / 2) * 2 + min (a % 2) (b % 2)
and_last zero b = omega (arith, zero_and b, zero_and (b / 2))
and_last (suc a) b = omega (
  arith,
  bit_and-bitwise (suc a) b,
  bit_and-bitwise (suc a / 2) (b / 2),
  enough_digits a (suc a / 2) (suc a / 2) (b / 2) (omega arith) (omega arith),
)

and_odd : (x m : ℕ) → bit_and x (2 * m + 1) ≡ bit_and (x / 2) m * 2 + x % 2
and_odd x m =
    let half : (2 * m + 1) / 2 ≡ m = omega arith in
    omega (arith, and_last x (2 * m + 1), ap (bit_and (x / 2)) half)

and_even : (x m : ℕ) → bit_and x (2 * m) ≡ bit_and (x / 2) m * 2
and_even x m =
    let half : (2 * m) / 2 ≡ m = omega arith in
    omega (arith, and_last x (2 * m), ap (bit_and (x / 2)) half)

ones : ℕ → ℕ
ones zero = 0
ones (suc n) = 2 * ones n + 1

-- n ones in front of k zeros.
mask : ℕ → ℕ → ℕ
unfolding ones
mask zero n = ones n
mask (suc k) n = 2 * mask k n

-- A number without its k last digits.
high : ℕ → ℕ → ℕ
high zero x = x
high (suc k) x = high k (x / 2)

and_ones : (n x : ℕ) → x < 2 ^ n → bit_and x (ones n) ≡ x
unfolding ones
and_ones zero x h = let e : x ≡ 0 = omega (arith, h) in rw e refl
and_ones (suc n) x h = omega (arith, and_odd x (ones n), and_ones n (x / 2) (omega (arith, h)))

and_mask :
    (k n x y : ℕ)
    → high k x < 2 ^ n
    → high k y < 2 ^ n
    → (bit_and x (mask k n) ≡ bit_and y (mask k n)) ↔ (high k x ≡ high k y)
unfolding mask high
and_mask zero n x y h l =
    (λ e. omega (arith, e, and_ones n x h, and_ones n y l), λ e. ap (λ z. bit_and z (ones n)) e)
and_mask (suc k) n x y h l =
    let (to, from) = and_mask k n (x / 2) (y / 2) h l in
    (
      λ e. to (omega (arith, e, and_even x (mask k n), and_even y (mask k n))),
      λ e. omega (arith, from e, and_even x (mask k n), and_even y (mask k n)),
    )

pub power_pos : (k : ℕ) → 0 < 2 ^ k
power_pos zero = omega arith
power_pos (suc k) = omega (arith, power_pos k)

-- Digits left out one after the other or at once.
high-div : (k x : ℕ) → high k x ≡ x / 2 ^ k
unfolding high
high-div zero x = omega arith
high-div (suc k) x =
    let p : 2 * 2 ^ k ≡ 2 ^ suc k = omega arith in
    high-div k (x / 2) ∙ div-div-eq-div-mul x 2 (2 ^ k) ∙ ap (λ d. x / d) p

ones-power : (n : ℕ) → ones n ≡ 2 ^ n - 1
unfolding ones
ones-power zero = refl
ones-power (suc n) = omega (arith, ones-power n, power_pos n)

mask-power : (k n : ℕ) → mask k n ≡ (2 ^ n - 1) * 2 ^ k
unfolding mask
mask-power zero n = omega (arith, ones-power n)
mask-power (suc k) n =
    let p : 2 * 2 ^ k ≡ 2 ^ suc k = omega arith in
    ap (λ m. 2 * m) (mask-power k n)
    ∙ mul_left_comm 2 (2 ^ n - 1) (2 ^ k)
    ∙ ap (λ m. (2 ^ n - 1) * m) p

-- Two numbers agree on n ones in front of k zeros just when they agree above the k last digits.
pub and_high_bits :
    (n k x y : ℕ)
    → x / 2 ^ k < 2 ^ n
    → y / 2 ^ k < 2 ^ n
    → (bit_and x ((2 ^ n - 1) * 2 ^ k) ≡ bit_and y ((2 ^ n - 1) * 2 ^ k)) ↔ (x / 2 ^ k ≡ y / 2 ^ k)
and_high_bits n k x y h l =
    let (to, from) =
      and_mask k n x y (omega (arith, h, high-div k x)) (omega (arith, l, high-div k y)) in
    let m : mask k n ≡ (2 ^ n - 1) * 2 ^ k = mask-power k n in
    (
      λ e. sym (high-div k x) ∙ to (ap (bit_and x) m ∙ e ∙ ap (bit_and y) (sym m)) ∙ high-div k y,
      λ e. ap (bit_and x) (sym m) ∙ from (high-div k x ∙ e ∙ sym (high-div k y)) ∙ ap (bit_and y) m,
    )

pub power_add : (n k : ℕ) → 2 ^ n * 2 ^ k ≡ 2 ^ (n + k)
power_add zero k = let e : 0 + k ≡ k = omega arith in rw e (omega arith)
power_add (suc n) k =
    let e : suc n + k ≡ suc (n + k) = omega arith in
    let p : 2 ^ suc n ≡ 2 * 2 ^ n = omega arith in
    ap (λ m. m * 2 ^ k) p
    ∙ mul_assoc 2 (2 ^ n) (2 ^ k)
    ∙ omega (arith, power_add n k, ap (λ m. 2 ^ m) e)
