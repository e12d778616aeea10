-- ===== src/InternetChecksum/Sum.antt =====
-- The checksum as a sum modulo 65535.
use cs144_sponge.Base.{
  ℕ, zero, suc, replicate, ◌+◌, ◌-◌, ◌*◌, ◌%◌, ◌^◌, ◌≤◌, ◌<◌, ◌≡◌, refl, ap, ◌∙◌, Bool, true, false,
  not, List, [], ◌∷◌, ◌++◌, ◌==◌, if◌then◌else◌, arith, u32, ok, err, IsU32, All, IsByte, length,
}
use cs144_sponge.InternetChecksum.{InternetChecksum, add, add_byte, fold_carries, value}

-- The sum of the 16-bit words of the bytes, in network byte order and without a bound.
abbrev pub word_sum : Bool → List ℕ → ℕ
word_sum odd [] = 0
word_sum false (x ∷ bytes) = x * 2 ^ 8 + word_sum true bytes
word_sum true (x ∷ bytes) = x + word_sum false bytes

-- The parity after the bytes.
abbrev pub parity_after : Bool → List ℕ → Bool
parity_after odd [] = odd
parity_after odd (x ∷ bytes) = parity_after (not odd) bytes

pub word_sum-append :
    (odd : Bool) (xs ys : List ℕ)
    → word_sum odd (xs ++ ys) ≡ word_sum odd xs + word_sum (parity_after odd xs) ys
word_sum-append odd [] ys = omega arith
word_sum-append true (x ∷ xs) ys = omega (arith, word_sum-append false xs ys)
word_sum-append false (x ∷ xs) ys = omega (arith, word_sum-append true xs ys)

pub word_sum-zeros : (n : ℕ) (odd : Bool) → word_sum odd (replicate n 0) ≡ 0
word_sum-zeros zero odd = refl
word_sum-zeros (suc n) true = omega (arith, word_sum-zeros n false)
word_sum-zeros (suc n) false = omega (arith, word_sum-zeros n true)

pub parity_after-append :
    (odd : Bool) (xs ys : List ℕ)
    → parity_after odd (xs ++ ys) ≡ parity_after (parity_after odd xs) ys
parity_after-append odd [] ys = refl
parity_after-append odd (x ∷ xs) ys = parity_after-append (not odd) xs ys

-- An even number of bytes keeps the parity.
pub parity_after-zeros : (n : ℕ) → parity_after false (replicate (2 * n) 0) ≡ false
parity_after-zeros zero = refl
parity_after-zeros (suc n) =
    let e : 2 * suc n ≡ suc (suc (2 * n)) = omega arith in rw e (parity_after-zeros n)

pub word_sum-le :
    (odd : Bool) (bytes : List ℕ) → All IsByte bytes → word_sum odd bytes ≤ length bytes * 65280
word_sum-le odd [] h = omega arith
word_sum-le true (x ∷ bytes) h = omega (arith, h, word_sum-le false bytes h.1)
word_sum-le false (x ∷ bytes) h = omega (arith, h, word_sum-le true bytes h.1)

with_sum :
    (n m : ℕ) (odd : Bool)
    → n ≡ m
    → ◌≡◌ {A = InternetChecksum}
        (record { sum = n; parity = odd })
        (record { sum = m; parity = odd })
with_sum n m odd e = ap (λ (k : ℕ). record { sum = k; parity = odd }) e

add_from :
    (bytes : List ℕ) (n : ℕ) (odd : Bool)
    → n + word_sum odd bytes < 2 ^ 32
    → add bytes (record { sum = n; parity = odd })
      ≡ record { sum = n + word_sum odd bytes; parity = parity_after odd bytes }
unfolding add
add_from [] n odd h = with_sum n (n + 0) odd (omega arith)
add_from (x ∷ bytes) n true h =
    let e : u32 (n + x) ≡ n + x = omega (arith, h) in
    rw (e, add) (add_from bytes (n + x) false (omega (arith, h)) ∙ with_sum _ _ _ (omega arith))
add_from (x ∷ bytes) n false h =
    let e : u32 (n + x * 2 ^ 8) ≡ n + x * 2 ^ 8 = omega (arith, h) in
    rw (e, add)
      (add_from bytes (n + x * 2 ^ 8) true (omega (arith, h)) ∙ with_sum _ _ _ (omega arith))

-- Below 2^32 the sum does not wrap.
pub add-word_sum :
    (bytes : List ℕ) (c : InternetChecksum)
    → c.sum + word_sum c.parity bytes < 2 ^ 32
    → add bytes c
      ≡ record { sum = c.sum + word_sum c.parity bytes; parity = parity_after c.parity bytes }
add-word_sum bytes c h = add_from bytes c.sum c.parity h

-- What is left of a sum when the carries are added: its residue modulo 65535, which for a sum that is
-- not 0 lies between 1 and 65535.
abbrev pub residue : ℕ → ℕ
residue n = if n == 0 then 0 else (n - 1) % 65535 + 1

pub fold_carries-residue : (n : ℕ) → IsU32 n → fold_carries 3 n ≡ ok (residue n)
unfolding fold_carries
fold_carries-residue n h = ground arith

-- The loop ends within its rounds, and the value is the complement of the residue.
pub value-residue : (c : InternetChecksum) → IsU32 c.sum → value c ≡ ok (65535 - residue c.sum)
unfolding value
value-residue c h =
    ap (λ r. elim r [ ok ret ↦ ok (65535 - ret) | err e ↦ err e ]) (fold_carries-residue c.sum h)

-- Adding the complement of a residue makes the residue 65535, whose complement is 0.
pub residue-complement : (n : ℕ) → 65535 - residue (n + (65535 - residue n)) ≡ 0
residue-complement n = ground arith

-- Adding two pieces one after the other is adding them at once.
pub add-append : (xs ys : List ℕ) (c : InternetChecksum) → add (xs ++ ys) c ≡ add ys (add xs c)
unfolding add
add-append [] ys c = refl
add-append (x ∷ xs) ys c = add-append xs ys (add_byte x c)
