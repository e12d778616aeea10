-- ===== src/BufferList/Laws.antt =====
-- A buffer list through its bytes.
use cs144_sponge.Base.{
  ℕ, ◌+◌, ◌-◌, ◌≤◌, ◌≡◌, refl, sym, ap, ◌∙◌, List, [], ◌∷◌, ◌++◌, arith, ok, length, drop,
  length-append, append-nil, append_assoc, drop-append, drop_all, Bool-cases, inl, inr, ltb, ◌==◌,
  ==_iff, ltb→lt, ltb→ge, drop-nil,
}
use cs144_sponge.Buffer
use cs144_sponge.Buffer.{Buffer}
use cs144_sponge.Buffer.Laws.{str-of_string, remove_prefix_ok}
use cs144_sponge.BufferList.{
  BufferList, of_string, append, concatenate_from, concatenate, size_from, size, remove_prefix,
}

-- The bytes of the buffers one after another.
unfoldable pub bytes : BufferList → List ℕ
bytes [] = []
bytes (b ∷ bs) = Buffer.str b ++ bytes bs

concatenate_from-bytes :
    (ret : List ℕ) (bs : BufferList) → concatenate_from ret bs ≡ ret ++ bytes bs
unfolding concatenate_from bytes
concatenate_from-bytes ret [] = sym (append-nil ret)
concatenate_from-bytes ret (b ∷ bs) =
    concatenate_from-bytes (ret ++ Buffer.str b) bs ∙ append_assoc ret (Buffer.str b) (bytes bs)

pub concatenate-bytes : (bs : BufferList) → concatenate bs ≡ bytes bs
unfolding concatenate
concatenate-bytes bs = concatenate_from-bytes [] bs

size_from-bytes : (n : ℕ) (bs : BufferList) → size_from n bs ≡ n + length (bytes bs)
unfolding size_from bytes Buffer.size
size_from-bytes n [] = omega arith
size_from-bytes n (b ∷ bs) =
    omega (
      arith,
      size_from-bytes (n + length (Buffer.str b)) bs,
      length-append (Buffer.str b) (bytes bs),
    )

-- `size` is the length of what `concatenate` returns.
pub size-concatenate : (bs : BufferList) → size bs ≡ length (concatenate bs)
unfolding size
size-concatenate bs = rw concatenate-bytes (omega (arith, size_from-bytes 0 bs))

append-eq : (xs ys : BufferList) → append xs ys ≡ xs ++ ys
unfolding append
append-eq xs [] = sym (append-nil xs)
append-eq xs (b ∷ bs) = append-eq (xs ++ (b ∷ [])) bs ∙ append_assoc xs (b ∷ []) bs

bytes-append : (xs ys : BufferList) → bytes (xs ++ ys) ≡ bytes xs ++ bytes ys
unfolding bytes
bytes-append [] ys = refl
bytes-append (b ∷ bs) ys =
    ap (λ r. Buffer.str b ++ r) (bytes-append bs ys)
    ∙ sym (append_assoc (Buffer.str b) (bytes bs) (bytes ys))

pub concatenate-append :
    (xs ys : BufferList) → concatenate (append xs ys) ≡ concatenate xs ++ concatenate ys
concatenate-append xs ys =
    rw (append-eq, concatenate-bytes, concatenate-bytes, concatenate-bytes) (bytes-append xs ys)

pub concatenate-of_string : (s : List ℕ) → concatenate (of_string s) ≡ s
unfolding of_string bytes
concatenate-of_string s = rw concatenate-bytes (append-nil _ ∙ str-of_string s)

remove_prefix-bytes :
    (bs : BufferList) (n : ℕ)
    → n ≤ length (bytes bs)
    → (bs' : BufferList) × (remove_prefix bs n ≡ ok bs') × (bytes bs' ≡ drop n (bytes bs))
unfolding remove_prefix bytes Buffer.size
remove_prefix-bytes [] n h = ([], ground arith, sym (drop-nil n))
remove_prefix-bytes (b ∷ bs) n h = elim (Bool-cases (n == 0)) [
  | inl e ↦ (b ∷ bs, rw e, rw ((==_iff _ _).0 e))
  | inr e ↦ elim (Bool-cases (ltb n (length (Buffer.str b)))) [
    | inl l ↦
        let (b', p, q) = remove_prefix_ok b n (omega (arith, ltb→lt _ _ l)) in
        let z : n - length (Buffer.str b) ≡ 0 = omega (arith, ltb→lt _ _ l) in
        (b' ∷ bs, rw (e, l, p), rw (drop-append, z, q))
    | inr g ↦
        let long : length (Buffer.str b) ≤ n = ltb→ge _ _ g in
        let left : n - length (Buffer.str b) ≤ length (bytes bs) =
          omega (arith, length-append (Buffer.str b) (bytes bs)) in
        let (bs', p, q) = remove_prefix-bytes bs (n - length (Buffer.str b)) left in
        (bs', rw (e, g) p, rw (drop-append, drop_all n (Buffer.str b) long) q)
  ]
]

-- Removing no more bytes than there are drops exactly those, across buffers of any sizes.
pub remove_prefix-drop :
    (bs : BufferList) (n : ℕ)
    → n ≤ length (concatenate bs)
    → (bs' : BufferList) × (remove_prefix bs n ≡ ok bs')
      × (concatenate bs' ≡ drop n (concatenate bs))
remove_prefix-drop bs n h =
    let (bs', p, q) = remove_prefix-bytes bs n (rw (concatenate-bytes) at h) in
    (bs', p, rw (concatenate-bytes bs', concatenate-bytes bs) q)

pub concatenate_one : (b : Buffer) → concatenate (b ∷ []) ≡ Buffer.str b
unfolding bytes
concatenate_one b = rw concatenate-bytes (append-nil (Buffer.str b))

pub concatenate-nil : concatenate [] ≡ []
unfolding concatenate
concatenate-nil = refl
