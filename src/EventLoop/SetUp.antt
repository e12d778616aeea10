-- ===== src/EventLoop/SetUp.antt =====
-- The rules that keep a predicate of the state, and the first loop over them.
use cs144_sponge.Base.{
  ◌≡◌, refl, true, false, ◌&&◌, ◌==◌, Bool-cases, inl, inr, ◌⊎◌, has_value, List, [], ◌∷◌, All,
  arith, ok,
}
use cs144_sponge.EventLoop.{Rule, PollFd, service_count, is_defunct, pollfd_for, set_up}

module _ {W : Type 0} (P G : W → Type 0) where
  -- The callback leaves the descriptor read or written, or the rule without interest.
  abbrev pub Acts : Rule W → W → W → Type 0
  Acts r w w' = ((service_count r w == service_count r w') && Rule.interest r w') ≡ false

  -- A rule that keeps `P`, and `G` where it holds.
  pub record Free (r : Rule W) : Type 0 where
    pub cancels : (w : W) → P w → (w' : W) × (Rule.cancel r w ≡ ok w') × P w' × (G w → G w')
    pub calls :
        (w : W) → P w → (w' : W) × (Rule.callback r w ≡ ok w') × P w' × (G w → G w') × Acts r w w'

  -- A rule whose callback needs `G`, which its interest implies, and may end it.
  pub record Guarded (r : Rule W) : Type 0 where
    pub wants : (w : W) → P w → Rule.interest r w ≡ true → G w
    pub cancels : (w : W) → P w → (w' : W) × (Rule.cancel r w ≡ ok w') × P w'
    pub calls : (w : W) → P w → G w → (w' : W) × (Rule.callback r w ≡ ok w') × P w' × Acts r w w'

  -- One rule at most is guarded.
  abbrev pub Fit : List (Rule W) → Type 0
  Fit [] = Unit {0}
  Fit (r ∷ rules) = (Free r × Fit rules) ⊎ (Guarded r × All Free rules)

  -- The polled rules, each with what was asked for it.
  abbrev pub AskedFree : List (Rule W) → List PollFd → Type 0
  AskedFree [] ps = Unit {0}
  AskedFree (r ∷ rules) [] = ⊥
  AskedFree (r ∷ rules) (p ∷ ps) = Free r × AskedFree rules ps

  abbrev pub Asked : List (Rule W) → List PollFd → W → Type 0
  Asked [] ps w = Unit {0}
  Asked (r ∷ rules) [] w = ⊥
  Asked (r ∷ rules) (p ∷ ps) w =
      (Free r × Asked rules ps w)
      ⊎ (Guarded r × (has_value p.events ≡ true → G w) × AskedFree rules ps)

  pub as-Fit : (rules : List (Rule W)) → All Free rules → Fit rules
  as-Fit [] v = tt
  as-Fit (r ∷ rules) (f, v) = inl (f, as-Fit rules v)

  pub as-Asked :
      (rules : List (Rule W)) (ps : List PollFd) (w : W) → AskedFree rules ps → Asked rules ps w
  as-Asked [] ps w v = tt
  as-Asked (r ∷ rules) [] w v = v
  as-Asked (r ∷ rules) (p ∷ ps) w (f, v) = inl (f, as-Asked rules ps w v)

  pub Asked-on :
      (rules : List (Rule W)) (ps : List PollFd) (w w' : W)
      → (G w → G w')
      → Asked rules ps w
      → Asked rules ps w'
  Asked-on [] ps w w' g v = tt
  Asked-on (r ∷ rules) [] w w' g v = v
  Asked-on (r ∷ rules) (p ∷ ps) w w' g (inl (f, v)) = inl (f, Asked-on rules ps w w' g v)
  Asked-on (r ∷ rules) (p ∷ ps) w w' g (inr (f, k, v)) = inr (f, λ e. g (k e), v)

  pub set_up-Free :
      (rules : List (Rule W)) (w : W)
      → All Free rules
      → P w
      → (rules' : List (Rule W)) × (ps : List PollFd) × (w' : W) × (set_up rules w
          ≡ ok (rules', ps, w'))
        × P w'
        × (G w → G w')
        × All Free rules'
        × AskedFree rules' ps
  unfolding set_up
  set_up-Free [] w v p = ([], [], w, refl, p, λ g. g, tt, tt)
  set_up-Free (r ∷ rules) w (f, v) p = elim (Bool-cases (is_defunct r w)) [
    | inl e ↦
        let (w1, e1, p1, g1) = Free.cancels f w p in
        let (rules', ps, w', e', p', g', v', a') = set_up-Free rules w1 v p1 in
        (rules', ps, w', rw (e, e1, e'), p', λ g. g' (g1 g), v', a')
    | inr e ↦
        let (rules', ps, w', e', p', g', v', a') = set_up-Free rules w v p in
        (r ∷ rules', pollfd_for r w ∷ ps, w', rw (e, e'), p', g', (f, v'), (f, a'))
  ]

  has_asked :
      (r : Rule W) (w : W) → has_value (pollfd_for r w).events ≡ true → Rule.interest r w ≡ true
  unfolding pollfd_for
  has_asked r w e = elim (Bool-cases (Rule.interest r w)) [
    | inl i ↦ i
    | inr i ↦ ground (arith, e, i)
  ]

  pub set_up-Fit :
      (rules : List (Rule W)) (w : W)
      → Fit rules
      → P w
      → (rules' : List (Rule W)) × (ps : List PollFd) × (w' : W) × (set_up rules w
          ≡ ok (rules', ps, w'))
        × P w'
        × Fit rules'
        × Asked rules' ps w'
  unfolding set_up
  set_up-Fit [] w v p = ([], [], w, refl, p, tt, tt)
  set_up-Fit (r ∷ rules) w (inl (f, v)) p = elim (Bool-cases (is_defunct r w)) [
    | inl e ↦
        let (w1, e1, p1, g1) = Free.cancels f w p in
        let (rules', ps, w', e', p', v', a') = set_up-Fit rules w1 v p1 in
        (rules', ps, w', rw (e, e1, e'), p', v', a')
    | inr e ↦
        let (rules', ps, w', e', p', v', a') = set_up-Fit rules w v p in
        (r ∷ rules', pollfd_for r w ∷ ps, w', rw (e, e'), p', inl (f, v'), inl (f, a'))
  ]
  set_up-Fit (r ∷ rules) w (inr (f, v)) p = elim (Bool-cases (is_defunct r w)) [
    | inl e ↦
        let (w1, e1, p1) = Guarded.cancels f w p in
        let (rules', ps, w', e', p', g', v', a') = set_up-Free rules w1 v p1 in
        (rules', ps, w', rw (e, e1, e'), p', as-Fit rules' v', as-Asked rules' ps w' a')
    | inr e ↦
        let (rules', ps, w', e', p', g', v', a') = set_up-Free rules w v p in
        (
          r ∷ rules',
          pollfd_for r w ∷ ps,
          w',
          rw (e, e'),
          p',
          inr (f, v'),
          inr (f, λ h. g' (Guarded.wants f w p (has_asked r w h)), a'),
        )
  ]
