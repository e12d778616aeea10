-- ===== src/Router/Longest.antt =====
-- The route that the table's loop picks.
use cs144_sponge.Base.{
  ℕ, suc, ◌+◌, ◌≤◌, ◌<◌, ◌≡◌, refl, ap, ◌∙◌, ◌↔◌, ◌⊎◌, inl, inr, Bool, Bool-cases, true, false,
  ◌&&◌, Option, none, some, List, [], ◌∷◌, ok, arith, IsU32, leb, All, get_elem?,
}
use cs144_sponge.Router.{Route, best}
use cs144_sponge.Router.Prefix.{IsRoute, Covers, matches_prefix}

-- From place j on, every route that covers the address is shorter than `len`, or as long and not
-- behind place i.
abbrev pub Below : ℕ → ℕ → ℕ → ℕ → List Route → Type 0
Below i len dst j [] = Unit
Below i len dst j (t ∷ table) =
    (¬ Covers t dst ⊎ (t.prefix_length < len) ⊎ ((t.prefix_length ≡ len) × (j ≤ i)))
    × Below i len dst (j + 1) table

-- No route covers the address; or the route at this place does, and each other is shorter, or as long
-- and before it.
abbrev pub IsBest : List Route → ℕ → Option ℕ → Type 0
IsBest table dst none = All (λ t. ¬ Covers t dst) table
IsBest table dst (some i) =
    (t : Route) × (get_elem? table i ≡ some t) × Covers t dst × Below i t.prefix_length dst 0 table

-- None covers the address but shorter ones.
abbrev Shorter : ℕ → ℕ → List Route → Type 0
Shorter len dst [] = Unit
Shorter len dst (t ∷ table) = (¬ Covers t dst ⊎ (t.prefix_length < len)) × Shorter len dst table

-- What the loop makes of a table from place i on, with `max` as the length so far.
abbrev Outcome : List Route → ℕ → ℕ → ℕ → Option ℕ → Option ℕ → Type 0
Outcome table dst i max index o =
    ((o ≡ index) × Shorter max dst table)
    ⊎ ((k : ℕ) × (t : Route) × (o ≡ some (i + k))
        × (get_elem? table k ≡ some t)
        × Covers t dst
        × (max ≤ t.prefix_length)
        × Below k t.prefix_length dst 0 table)

below_later :
    {N : Type 0} {a b j k : ℕ}
    → N ⊎ (a < b) ⊎ ((a ≡ b) × (j ≤ k))
    → N ⊎ (a < b) ⊎ ((a ≡ b) × (j + 1 ≤ suc k))
below_later (inl n) = inl n
below_later (inr (inl l)) = inr (inl l)
below_later (inr (inr (e, l))) = inr (inr (e, omega arith))

below_new :
    {N : Type 0} {a max b k : ℕ} → N ⊎ (a < max) → max ≤ b → N ⊎ (a < b) ⊎ ((a ≡ b) × (0 ≤ suc k))
below_new (inl n) h = inl n
below_new (inr l) h = inr (inl (omega arith))

at_most : {a b k : ℕ} → a ≤ b → (a < b) ⊎ ((a ≡ b) × (0 ≤ suc k))
at_most h = ground arith

Below-suc :
    (k len dst j : ℕ) (table : List Route)
    → Below k len dst j table
    → Below (suc k) len dst (j + 1) table
Below-suc k len dst j [] h = tt
Below-suc k len dst j (t ∷ table) (h, hs) = (below_later h, Below-suc k len dst (j + 1) table hs)

Shorter-Below :
    (i len dst j : ℕ) (table : List Route) → Shorter len dst table → Below i len dst j table
Shorter-Below i len dst j [] h = tt
Shorter-Below i len dst j (t ∷ table) (inl h, hs) =
    (inl h, Shorter-Below i len dst (j + 1) table hs)
Shorter-Below i len dst j (t ∷ table) (inr h, hs) =
    (inr (inl h), Shorter-Below i len dst (j + 1) table hs)

absurd_bool : false ≡ true → ⊥
absurd_bool e = ground (arith, e)

not_better :
    {C : Type 0} (b : Bool) {len max : ℕ}
    → (b ≡ true) ↔ C
    → (b && leb max len) ≡ false
    → ¬ C ⊎ (len < max)
not_better false (_, from) e = inl (λ c. absurd_bool (from c))
not_better true iff e = inr (ground (arith, e))

skipped :
    (t : Route) (table : List Route) (dst i max : ℕ) (index o : Option ℕ)
    → (¬ Covers t dst ⊎ (t.prefix_length < max))
    → Outcome table dst (i + 1) max index o
    → Outcome (t ∷ table) dst i max index o
skipped t table dst i max index o h (inl (same, hs)) = inl (same, (h, hs))
skipped t table dst i max index o h (inr (k, u, e, at, c, l, below)) = inr (
  suc k,
  u,
  e ∙ ap some (omega arith),
  at,
  c,
  l,
  (below_new h l, Below-suc k u.prefix_length dst 0 table below),
)

taken :
    (t : Route) (table : List Route) (dst i max : ℕ) (index o : Option ℕ)
    → Covers t dst
    → max ≤ t.prefix_length
    → Outcome table dst (i + 1) t.prefix_length (some i) o
    → Outcome (t ∷ table) dst i max index o
taken t table dst i max index o c l (inl (same, hs)) = inr (
  0,
  t,
  same ∙ ap some (omega arith),
  refl,
  c,
  l,
  (inr (inr (refl, omega arith)), Shorter-Below 0 t.prefix_length dst 1 table hs),
)
taken t table dst i max index o c l (inr (k, u, e, at, cu, lu, below)) = inr (
  suc k,
  u,
  e ∙ ap some (omega arith),
  at,
  cu,
  omega (arith, l, lu),
  (inr (at_most (omega (arith, l, lu))), Below-suc k u.prefix_length dst 0 table below),
)

best_from :
    (table : List Route) (dst i : ℕ) (index : Option ℕ) (max : ℕ)
    → All IsRoute table
    → IsU32 dst
    → (o : Option ℕ) × (best table dst i index max ≡ ok o) × Outcome table dst i max index o
unfolding best
best_from [] dst i index max v lt = (index, refl, inl (refl, tt))
best_from (t ∷ table) dst i index max (v, vs) lt =
    let (b, found, iff) = matches_prefix t dst v lt in
    elim (Bool-cases (b && leb max t.prefix_length)) [
      | inl better ↦
          let (o, e, out) = best_from table dst (i + 1) (some i) t.prefix_length vs lt in
          (
            o,
            rw (found, better) e,
            taken t table dst i max index o (iff.0 (ground (arith, better)))
                (ground (arith, better)) out,
          )
      | inr worse ↦
          let (o, e, out) = best_from table dst (i + 1) index max vs lt in
          (o, rw (found, worse) e, skipped t table dst i max index o (not_better b iff worse) out)
    ]

Shorter-zero :
    (dst : ℕ) (table : List Route) → Shorter 0 dst table → All (λ t. ¬ Covers t dst) table
Shorter-zero dst [] h = tt
Shorter-zero dst (t ∷ table) (inl h, hs) = (h, Shorter-zero dst table hs)
Shorter-zero dst (t ∷ table) (inr h, hs) = absurd (omega (arith, h))

-- The loop ends without undefined behaviour. It finds no route where none covers the address;
-- otherwise it finds a route with the longest prefix among those that cover the address, the last one
-- of them in the table.
pub longest_prefix :
    (table : List Route) (dst : ℕ)
    → All IsRoute table
    → IsU32 dst
    → (o : Option ℕ) × (best table dst 0 none 0 ≡ ok o) × IsBest table dst o
longest_prefix table dst v lt =
    let (o, e, out) = best_from table dst 0 none 0 v lt in
    elim out [
      | inl (same, h) ↦ (none, e ∙ ap ok same, Shorter-zero dst table h)
      | inr (k, t, same, at, c, _, below) ↦
          (some k, e ∙ ap ok (same ∙ ap some (omega arith)), (t, at, c, below))
    ]
