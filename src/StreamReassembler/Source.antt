-- ===== src/StreamReassembler/Source.antt =====
-- Substrings of one source: a function from positions to bytes.
use cs144_sponge.Base.{
  ℕ, ◌+◌, ◌-◌, ◌<◌, ◌≡◌, ap, ◌∙◌, List, [], ◌++◌, arith, get_or, length, take, drop, length-append,
  length-take, length-drop, get_or-append_left, get_or-append_right, get_or-take, get_or-drop,
}
use native.Mathlib.Decide.{dec_lt}

-- `v` is what the source `s` has from position `k` on.
abbrev pub Agrees : (ℕ → ℕ) → ℕ → List ℕ → Type 0
Agrees s k v = (i : ℕ) → i < length v → get_or v i 0 ≡ s (k + i)

module _ (s : ℕ → ℕ) where
  pub Agrees-nil : (k : ℕ) → Agrees s k []
  Agrees-nil k i h = absurd (omega arith)

  pub Agrees-append :
      (k : ℕ) (v w : List ℕ) → Agrees s k v → Agrees s (k + length v) w → Agrees s k (v ++ w)
  Agrees-append k v w hv hw i h = elim (dec_lt i (length v)) [
    | yes lt ↦ get_or-append_left v w i 0 lt ∙ hv i lt
    | no ge ↦
        let e : k + length v + (i - length v) ≡ k + i = omega arith in
        get_or-append_right v w i 0 (omega arith)
        ∙ hw (i - length v) (omega (arith, length-append v w))
        ∙ ap s e
  ]

  pub Agrees-take : (n k : ℕ) (v : List ℕ) → Agrees s k v → Agrees s k (take n v)
  Agrees-take n k v hv i h =
      get_or-take n v i 0 (omega (arith, length-take n v)) ∙ hv i (omega (arith, length-take n v))

  pub Agrees-drop : (n k : ℕ) (v : List ℕ) → Agrees s k v → Agrees s (k + n) (drop n v)
  Agrees-drop n k v hv i h =
      let e : k + (n + i) ≡ k + n + i = omega arith in
      get_or-drop n v i 0 ∙ hv (n + i) (omega (arith, length-drop n v)) ∙ ap s e
