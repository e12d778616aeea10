-- ===== src/BufferViewList/Laws.antt =====
-- A list of views through its bytes.
use cs144_sponge.Base.{
  ℕ, ◌+◌, ◌-◌, ◌≤◌, ◌≡◌, refl, sym, ap, ◌∙◌, List, [], ◌∷◌, ◌++◌, arith, ok, length, drop,
  length-append, append-nil, drop-append, drop_all, Bool-cases, inl, inr, ltb, ◌==◌, ==_iff, ltb→lt,
  ltb→ge, drop-nil,
}
use cs144_sponge.Buffer
use cs144_sponge.BufferList
use cs144_sponge.BufferList.{BufferList}
use cs144_sponge.BufferList.Laws as Buffers
use cs144_sponge.BufferViewList.{
  BufferViewList, of_string, of_buffers, remove_prefix, size_from, size,
}

-- The bytes of the views one after another.
abbrev pub bytes : BufferViewList → List ℕ
bytes [] = []
bytes (v ∷ vs) = v ++ bytes vs

size_from-bytes : (n : ℕ) (vs : BufferViewList) → size_from n vs ≡ n + length (bytes vs)
unfolding size_from
size_from-bytes n [] = omega arith
size_from-bytes n (v ∷ vs) =
    omega (arith, size_from-bytes (n + length v) vs, length-append v (bytes vs))

pub size-bytes : (vs : BufferViewList) → size vs ≡ length (bytes vs)
unfolding size
size-bytes vs = omega (arith, size_from-bytes 0 vs)

pub bytes-of_string : (s : List ℕ) → bytes (of_string s) ≡ s
unfolding of_string
bytes-of_string s = append-nil s

of_buffers-bytes : (bs : BufferList) → bytes (of_buffers bs) ≡ Buffers.bytes bs
unfolding of_buffers Buffers.bytes
of_buffers-bytes [] = refl
of_buffers-bytes (b ∷ bs) = ap (λ r. Buffer.str b ++ r) (of_buffers-bytes bs)

pub bytes-of_buffers : (bs : BufferList) → bytes (of_buffers bs) ≡ BufferList.concatenate bs
bytes-of_buffers bs = of_buffers-bytes bs ∙ sym (Buffers.concatenate-bytes bs)

-- Removing no more bytes than there are drops exactly those, across views of any sizes.
pub remove_prefix-drop :
    (vs : BufferViewList) (n : ℕ)
    → n ≤ length (bytes vs)
    → (rest : BufferViewList) × (remove_prefix vs n ≡ ok rest) × (bytes rest ≡ drop n (bytes vs))
unfolding remove_prefix
remove_prefix-drop [] n h = ([], ground arith, sym (drop-nil n))
remove_prefix-drop (v ∷ vs) n h = elim (Bool-cases (n == 0)) [
  | inl e ↦ (v ∷ vs, rw e, rw ((==_iff _ _).0 e))
  | inr e ↦ elim (Bool-cases (ltb n (length v))) [
    | inl l ↦
        let z : n - length v ≡ 0 = omega (arith, ltb→lt _ _ l) in
        (drop n v ∷ vs, rw (e, l), rw (drop-append, z))
    | inr g ↦
        let long : length v ≤ n = ltb→ge _ _ g in
        let left : n - length v ≤ length (bytes vs) = omega (arith, length-append v (bytes vs)) in
        let (rest, p, q) = remove_prefix-drop vs (n - length v) left in
        (rest, rw (e, g) p, rw (drop-append, drop_all n v long) q)
  ]
]
