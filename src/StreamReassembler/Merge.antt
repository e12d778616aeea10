-- ===== src/StreamReassembler/Merge.antt =====
-- `merge_substrings` on substrings that overlap or touch.
use cs144_sponge.Base.{
  ℕ, zero, suc, ◌+◌, ◌-◌, ◌≤◌, ◌<◌, ◌≡◌, refl, ap, ◌∙◌, List, [], ◌∷◌, arith, get_or, length,
  replicate, length-replicate, min, max, inl, inr, ◌⊎◌,
}
use cs144_sponge.StreamReassembler.{copy_to, merge_substrings}
use cs144_sponge.StreamReassembler.Source.{Agrees}

in_range : (k n j : ℕ) → ((k ≤ j) × (j < k + n)) ⊎ ((j < k) ⊎ (k + n ≤ j))
in_range k n j = ground arith

length-copy_to : (src : List ℕ) (o : ℕ) (dst : List ℕ) → length (copy_to src o dst) ≡ length dst
unfolding copy_to
length-copy_to src o [] = refl
length-copy_to src (suc k) (d ∷ dst) = ap suc (length-copy_to src k dst)
length-copy_to [] zero (d ∷ dst) = refl
length-copy_to (x ∷ src) zero (d ∷ dst) = ap suc (length-copy_to src zero dst)

copy_to_inside :
    (src : List ℕ) (o : ℕ) (dst : List ℕ) (i : ℕ)
    → o ≤ i
    → i < o + length src
    → i < length dst
    → get_or (copy_to src o dst) i 0 ≡ get_or src (i - o) 0
unfolding copy_to
copy_to_inside src o [] i lo hi h = absurd (omega arith)
copy_to_inside src (suc k) (d ∷ dst) zero lo hi h = absurd (omega arith)
copy_to_inside src (suc k) (d ∷ dst) (suc i) lo hi h =
    let e : suc i - suc k ≡ i - k = omega arith in
    rw e (copy_to_inside src k dst i (omega arith) (omega arith) (omega arith))
copy_to_inside [] zero (d ∷ dst) i lo hi h = absurd (omega arith)
copy_to_inside (x ∷ src) zero (d ∷ dst) zero lo hi h = refl
copy_to_inside (x ∷ src) zero (d ∷ dst) (suc i) lo hi h =
    let e : suc i - 0 ≡ suc i = omega arith in
    let e' : i - 0 ≡ i = omega arith in
    rw e (
      copy_to_inside src zero dst i (omega arith) (omega arith) (omega arith)
      ∙ ap (λ j. get_or src j 0) e')

copy_to_outside :
    (src : List ℕ) (o : ℕ) (dst : List ℕ) (i : ℕ)
    → (i < o) ⊎ (o + length src ≤ i)
    → get_or (copy_to src o dst) i 0 ≡ get_or dst i 0
unfolding copy_to
copy_to_outside src o [] i a = refl
copy_to_outside src (suc k) (d ∷ dst) zero a = refl
copy_to_outside src (suc k) (d ∷ dst) (suc i) a = copy_to_outside src k dst i (omega arith)
copy_to_outside [] zero (d ∷ dst) i a = refl
copy_to_outside (x ∷ src) zero (d ∷ dst) zero a = absurd (omega arith)
copy_to_outside (x ∷ src) zero (d ∷ dst) (suc i) a = copy_to_outside src zero dst i (omega arith)

pub length-merge_substrings :
    (d : List ℕ) (i : ℕ) (v : List ℕ) (k : ℕ)
    → length (merge_substrings d i v k) ≡ max (i + length d) (k + length v) - min i k
unfolding merge_substrings
length-merge_substrings d i v k = length-copy_to v _ _ ∙ length-copy_to d _ _ ∙ length-replicate _ 0

-- Where the two substrings overlap or touch, and each is part of the source, so is the result, and
-- it reaches over both.
pub merge_substrings-Agrees :
    (s : ℕ → ℕ) (d : List ℕ) (i : ℕ) (v : List ℕ) (k : ℕ)
    → i ≤ k + length v
    → k ≤ i + length d
    → Agrees s i d
    → Agrees s k v
    → Agrees s (min i k) (merge_substrings d i v k)
unfolding merge_substrings
merge_substrings-Agrees s d i v k h h' hd hv j lt =
    let a : ℕ = min i k in
    let n : ℕ = max (i + length d) (k + length v) - a in
    let below : j < n = omega (arith, length-merge_substrings d i v k) in
    let blank : List ℕ = replicate n 0 in
    let one : List ℕ = copy_to d (i - a) blank in
    let size : length one ≡ n = length-copy_to d (i - a) blank ∙ length-replicate n 0 in
    elim (in_range k (length v) (a + j)) [
      | inl (lo, hi) ↦
          copy_to_inside v (k - a) one j (omega arith) (omega arith) (omega arith)
          ∙ hv (j - (k - a)) (omega arith)
          ∙ ap s (omega arith)
      | inr out ↦
          copy_to_outside v (k - a) one j (omega arith)
          ∙ copy_to_inside d (i - a) blank j (omega arith) (omega arith)
              (omega (arith, length-replicate {A = ℕ} n 0))
          ∙ hd (j - (i - a)) (omega arith)
          ∙ ap s (omega arith)
    ]
