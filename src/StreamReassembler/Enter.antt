-- ===== src/StreamReassembler/Enter.antt =====
-- A substring enters the map: the entries stay parts of the source, through merging and trimming.
use cs144_sponge.Base.{
  ℕ, ◌+◌, ◌-◌, ◌≤◌, ◌<◌, ◌^◌, ◌≡◌, subst, Bool, true, false, ◌&&◌, ◌||◌, some, List, [], ◌∷◌, arith,
  length, All, Bool-cases, Option-cases, ltb, leb, inl, inr, take, drop, min, length-take,
  length-drop, add64, sub64, if◌then◌else◌,
}
use cs144_sponge.ByteStream.{ByteStream}
use cs144_sponge.StreamReassembler.{
  StreamReassembler, Entries, HashOrder, merge_substrings, erase, value_at, keys, first_sorted,
  touch, absorb, shorten, trim, clip, enter,
}
use cs144_sponge.StreamReassembler.Source.{Agrees, Agrees-nil, Agrees-take, Agrees-drop}
use cs144_sponge.StreamReassembler.Merge.{merge_substrings-Agrees, length-merge_substrings}
use cs144_sponge.StreamReassembler.Entries.{
  Every, erase-Every, assign-Every, touch-Every, value_at-Every,
}
use cs144_sponge.StreamReassembler.Pass.{Fits}

-- A key that may be entered again with an empty value.
abbrev pub Reusable : ℕ → Type 0
Reusable k = (0 < k) × (k < 2 ^ 64)

pub keys-Reusable :
    (s : ℕ → ℕ) (w : ℕ) (m : Entries)
    → Every (Fits s) m
    → Every (λ k v. w < k) m
    → All Reusable (keys m)
unfolding keys
keys-Reusable s w [] f a = tt
keys-Reusable s w ((k, v) ∷ m) f a = (omega arith, keys-Reusable s w m f.1 a.1)

first_sorted-Reusable :
    (ks : List ℕ) {key : ℕ} → All Reusable ks → first_sorted ks ≡ some key → Reusable key
unfolding first_sorted
first_sorted-Reusable [] a e = cc
first_sorted-Reusable (k ∷ ks) {key} a e = elim (Option-cases (first_sorted ks)) [
  | inl n ↦ ground (arith, n)
  | inr (j, n) ↦ ground (arith, n, first_sorted-Reusable ks a.1 n)
]

overlap :
    (i key n l : ℕ)
    → 0 < n
    → i + n < 2 ^ 64
    → 0 < key + l
    → key + l < 2 ^ 64
    → (ltb (sub64 (add64 i n) 1) key || ltb (sub64 (add64 key l) 1) i) ≡ false
    → (key ≤ i + n) × (i ≤ key + l)
overlap i key n l p q p' q' e = ground arith

inside :
    (index willing n : ℕ)
    → 0 < n
    → index + n < 2 ^ 64
    → (ltb index willing && leb willing (sub64 (add64 index n) 1)) ≡ true
    → (index < willing) × (willing < index + n)
inside index willing n p q e = ground arith

module _ (s : ℕ → ℕ) where
  Reusable-Fits : (key : ℕ) → Reusable key → Fits s key []
  Reusable-Fits key u = (omega arith, omega arith, Agrees-nil s key)

  -- A substring with at least one byte, part of the source.
  abbrev pub Carries : ℕ → List ℕ → Type 0
  Carries i d = (0 < length d) × (i + length d < 2 ^ 64) × Agrees s i d

  merge-Carries :
      (d : List ℕ) (i : ℕ) (v : List ℕ) (key : ℕ)
      → Carries i d
      → Fits s key v
      → key ≤ i + length d
      → i ≤ key + length v
      → Carries (min i key) (merge_substrings d i v key)
  merge-Carries d i v key c f a b = (
    omega (arith, length-merge_substrings d i v key),
    omega (arith, length-merge_substrings d i v key),
    merge_substrings-Agrees s d i v key b a c.2 f.2,
  )

  overlap-Carries :
      (d : List ℕ) (i : ℕ) (v : List ℕ) (key : ℕ)
      → Carries i d
      → Fits s key v
      → (ltb (sub64 (add64 i (length d)) 1) key || ltb (sub64 (add64 key (length v)) 1) i) ≡ false
      → Carries (min key i) (merge_substrings d i v key)
  overlap-Carries d i v key c f e =
      let near : (key ≤ i + length d) × (i ≤ key + length v) =
        overlap i key (length d) (length v) c.0 c.1 f.0 f.1 e in
      let q : min i key ≡ min key i = omega arith in
      subst (λ k. Carries k (merge_substrings d i v key)) q
        (merge-Carries d i v key c f near.0 near.1)

  clip-Carries :
      (d : List ℕ) (index willing : ℕ)
      → Carries index d
      → let (d', index') = clip d index willing in Carries index' d'
  unfolding clip
  clip-Carries d index willing c =
      elim (Bool-cases (ltb index willing && leb willing (sub64 (add64 index (length d)) 1))) [
        | inl e ↦
            let near : (index < willing) × (willing < index + length d) =
              inside index willing (length d) c.0 c.1 e in
            let off : sub64 willing index ≡ willing - index = omega arith in
            let at : index + (willing - index) ≡ willing = omega arith in
            let d' : List ℕ = drop (willing - index) d in
            rw (e, clip, off)
              (
                omega (arith, length-drop (willing - index) d),
                omega (arith, length-drop (willing - index) d),
                subst (λ k. Agrees s k d') at (Agrees-drop s (willing - index) index d c.2),
              )
        | inr e ↦ rw (e, clip) c
      ]

  take-Fits : (n key : ℕ) (v : List ℕ) → Reusable key → Fits s key v → Fits s key (take n v)
  take-Fits n key v u f = (omega arith, omega (arith, length-take n v), Agrees-take s n key v f.2)

  if-Every :
      (b : Bool) (m n : Entries)
      → Every (Fits s) m
      → Every (Fits s) n
      → Every (Fits s) (if b then m else n)
  if-Every true m n f g = f
  if-Every false m n f g = g

  module _ (h : HashOrder) where
    absorb-Carries :
        (ks : List ℕ) (d : List ℕ) (i : ℕ) (m : Entries)
        → All Reusable ks
        → Carries i d
        → Every (Fits s) m
        → let (d', i', m') = absorb h ks d i m in Carries i' d' × Every (Fits s) m'
    unfolding absorb
    absorb-Carries [] d i m u c f = (c, f)
    absorb-Carries (key ∷ ks) d i m u c f =
        let m' : Entries = touch h key m in
        let f' : Every (Fits s) m' = touch-Every (Fits s) h key m (Reusable-Fits key u.0) f in
        let fv : Fits s key (value_at key m') =
          value_at-Every (Fits s) key m' (Reusable-Fits key u.0) f' in
        elim (Bool-cases (
          ltb (sub64 (add64 i (length d)) 1) key
          || ltb (sub64 (add64 key (length (value_at key m'))) 1) i)) [
            | inl e ↦ rw (e, absorb) (absorb-Carries ks d i m' u.1 c f')
            | inr e ↦
                rw (e, absorb)
                  (absorb-Carries ks _ _ (erase key m') u.1
                    (overlap-Carries d i (value_at key m') key c fv e)
                    (erase-Every (Fits s) key m' f'))
          ]

    shorten-Fits :
        (key n : ℕ) (m : Entries)
        → Reusable key
        → Every (Fits s) m
        → Every (Fits s) (shorten h key n m)
    unfolding shorten
    shorten-Fits key n m u f =
        let P : ℕ → List ℕ → Type 0 = Fits s in
        let blank : P key [] = Reusable-Fits key u in
        let m' : Entries = touch h key m in
        let f' : Every P m' = touch-Every P h key m blank f in
        let f'' : Every P
            (touch h key (if leb (length (value_at key m')) n then erase key m' else m')) =
          touch-Every P h key _ blank (if-Every _ _ m' (erase-Every P key m' f') f') in
        assign-Every P h key _ _ (take-Fits _ key _ u (value_at-Every P key _ blank f'')) f''

    trim-Fits :
        (out : ByteStream) (capacity : ℕ) (ks : List ℕ) (m : Entries)
        → All Reusable ks
        → Every (Fits s) m
        → Every (Fits s) (trim h out capacity ks m)
    unfolding trim
    trim-Fits out capacity ks m u f = elim (Option-cases (first_sorted ks)) [
      | inl e ↦ rw (e, trim) (if-Every _ _ m f f)
      | inr (key, e) ↦
          rw (e, trim) (if-Every _ _ m (shorten-Fits key _ m (first_sorted-Reusable ks u e) f) f)
    ]

    -- The map that the passes begin with.
    pub enter-Fits :
        (d : List ℕ) (index : ℕ) (r : StreamReassembler)
        → Carries index d
        → Every (Fits s) r.reassembler
        → All Reusable (keys r.reassembler)
        → Every (Fits s) (enter h d index r)
    unfolding enter
    enter-Fits d index r c f u =
        let (d', index') = clip d index r.willing in
        let (c', f') =
          absorb-Carries (keys r.reassembler) d' index' r.reassembler u
            (clip-Carries d index r.willing c) f in
        let (d'', index'', m) = absorb h (keys r.reassembler) d' index' r.reassembler in
        trim-Fits r.output r.capacity (keys r.reassembler) _ u
          (assign-Every (Fits s) h index'' d'' m (omega arith, c'.1, c'.2) f')
