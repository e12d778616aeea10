-- ===== src/StreamReassembler/Entries.antt =====
-- The map operations keep what holds of every entry.
use mathlib.Core.List.{Permᴰ}
use cs144_sponge.Base.{
  ℕ, ◌≡◌, sym, subst, some, List, [], ◌∷◌, All, Option-cases, Bool-cases, ◌==◌, ==_iff, inl, inr,
}
use cs144_sponge.StreamReassembler.{
  Entries, HashOrder, find, erase, update, value_at, assign, touch,
}

-- A property of every entry.
abbrev pub Every : (ℕ → List ℕ → Type 0) → Entries → Type 0
Every P m = All (λ e. P e.0 e.1) m

Every-perm : (P : ℕ → List ℕ → Type 0) {m n : Entries} → Permᴰ m n → Every P m → Every P n
Every-perm P Permᴰ.nil a = a
Every-perm P (Permᴰ.cons e p) a = (subst (λ x. P x.0 x.1) e a.0, Every-perm P p a.1)
Every-perm P (Permᴰ.swap e e') a =
    (subst (λ x. P x.0 x.1) e' a.1.0, (subst (λ x. P x.0 x.1) e a.0, a.1.1))
Every-perm P (Permᴰ.trans p q) a = Every-perm P q (Every-perm P p a)

same_value : {v w : List ℕ} → some w ≡ some v → w ≡ v
same_value e = cc

module _ (P : ℕ → List ℕ → Type 0) where
  pub erase-Every : (key : ℕ) (m : Entries) → Every P m → Every P (erase key m)
  unfolding erase
  erase-Every key [] a = a
  erase-Every key ((k, v) ∷ m) a = elim (Bool-cases (k == key)) [
    | inl e ↦ rw e a.1
    | inr e ↦ rw e (a.0, erase-Every key m a.1)
  ]

  pub update-Every :
      (key : ℕ) (w : List ℕ) (m : Entries) → P key w → Every P m → Every P (update key w m)
  unfolding update
  update-Every key w [] p a = a
  update-Every key w ((k, v) ∷ m) p a = elim (Bool-cases (k == key)) [
    | inl e ↦ rw e (subst (λ j. P j w) (sym ((==_iff _ _).0 e)) p, a.1)
    | inr e ↦ rw e (a.0, update-Every key w m p a.1)
  ]

  pub find-Every : (key : ℕ) (m : Entries) {v : List ℕ} → Every P m → find key m ≡ some v → P key v
  unfolding find
  find-Every key [] a e = cc
  find-Every key ((k, w) ∷ m) {v} a e = elim (Bool-cases (k == key)) [
    | inl q ↦
        let r : w ≡ v = same_value (rw q at e) in
        subst (λ j. P j v) ((==_iff _ _).0 q) (subst (P k) r a.0)
    | inr q ↦ find-Every key m a.1 (rw q at e)
  ]

  module _ (h : HashOrder) where
    pub assign-Every :
        (key : ℕ) (w : List ℕ) (m : Entries) → P key w → Every P m → Every P (assign h key w m)
    unfolding assign
    assign-Every key w m p a = elim (Option-cases (find key m)) [
      | inl e ↦ rw (e, assign) (Every-perm P (h.arranged ((key, w) ∷ m)) (p, a))
      | inr (v, e) ↦ rw (e, assign) (update-Every key w m p a)
    ]

    pub touch-Every : (key : ℕ) (m : Entries) → P key [] → Every P m → Every P (touch h key m)
    unfolding touch
    touch-Every key m p a = elim (Option-cases (find key m)) [
      | inl e ↦ rw (e, touch) (Every-perm P (h.arranged ((key, []) ∷ m)) (p, a))
      | inr (v, e) ↦ rw (e, touch) a
    ]

  pub value_at-Every : (key : ℕ) (m : Entries) → P key [] → Every P m → P key (value_at key m)
  unfolding value_at
  value_at-Every key m p a = elim (Option-cases (find key m)) [
    | inl e ↦ rw (e, value_at) p
    | inr (v, e) ↦ rw (e, value_at) (find-Every key m a e)
  ]
