-- ===== src/EventLoop/Steps.antt =====
-- The steps of a round, whatever the callbacks do.
use cs144_sponge.Base.{
  ℕ, Option, none, some, sym, ◌∙◌, ◌+◌, ◌≡◌, refl, subst, Bool, true, false, not, ◌&&◌, ◌==◌, inl,
  inr, ◌⊎◌, has_value, List, [], ◌∷◌, arith, ok, if◌then◌else◌, Result, err, runtime_error, bind_ok,
}
use cs144_sponge.FileDescriptor.{FdWrapper}
use cs144_sponge.EventLoop.{
  Direction, dir_in, dir_out, Rule, PollFd, Revents, poll_ready, service_count, call, serve_one,
  serve,
}

-- How often the descriptor was read, or written.
abbrev pub used : Direction → FdWrapper → ℕ
used dir_in f = f.read_count
used dir_out f = f.write_count

-- What is asked for can be done.
abbrev pub is_ready : Option Direction → Revents → Bool
is_ready none e = false
is_ready (some dir_in) e = e.readable
is_ready (some dir_out) e = e.writable

-- A rule's callback was called and did something about its descriptor, or lost its interest.
pub record Called {W : Type 0} (r : Rule W) (w w' : W) : Type 0 where
  pub runs : Rule.callback r w ≡ ok w'
  pub acts :
      (used (Rule.direction r) (Rule.fd r w) ≡ used (Rule.direction r) (Rule.fd r w'))
      → Rule.interest r w' ≡ false

-- What one rule's turn does with the state, and whether the rule is kept.
pub data Turn {W : Type 0} (r : Rule W) (p : PollFd) (e : Revents) (w : W) : Bool → W → Type 0 where
  serviced : {w' : W} → is_ready p.events e ≡ true → Called r w w' → Turn r p e w true w'
  hung :
      {w' : W}
      → is_ready p.events e ≡ false
      → e.hung_up ≡ true
      → has_value p.events ≡ true
      → Rule.cancel r w ≡ ok w'
      → Turn r p e w false w'
  idle :
      is_ready p.events e ≡ false
      → (e.hung_up ≡ false) ⊎ (has_value p.events ≡ false)
      → Turn r p e w true w

-- The turns of the rules one after the other, for none of which an error is reported.
pub data Turns {W : Type 0} (revents : ℕ → Revents)
    : ℕ → List (Rule W) → List PollFd → W → List (Rule W) → W → Type 0 where
  over : {idx : ℕ} {ps : List PollFd} {w : W} → Turns revents idx [] ps w [] w
  turn :
      {idx : ℕ} {r : Rule W} {p : PollFd} {rules rules' : List (Rule W)} {ps : List PollFd}
      {b : Bool} {w w1 w' : W}
      → (revents idx).failing ≡ false
      → Turn r p (revents idx) w b w1
      → Turns revents (idx + 1) rules ps w1 rules' w'
      → Turns revents idx (r ∷ rules) (p ∷ ps) w (if b then r ∷ rules' else rules') w'

-- A test that throws, and one that chooses between a turn's ends.
pub passed {ℓ} :
    {T : Type ℓ} (b : Bool) (r : Result T) (y : T)
    → (if b then err runtime_error else r) ≡ ok y
    → (b ≡ false) × (r ≡ ok y)
passed true r y e = cc
passed false r y e = (refl, e)

pub chosen {ℓ} :
    {T : Type ℓ} (b : Bool) (r r' : Result T) (y : T)
    → (if b then r else r') ≡ ok y
    → ((b ≡ true) × (r ≡ ok y)) ⊎ ((b ≡ false) × (r' ≡ ok y))
chosen true r r' y e = inl (refl, e)
chosen false r r' y e = inr (refl, e)

poll_ready-is_ready : (o : Option Direction) (e : Revents) → poll_ready o e ≡ is_ready o e
unfolding poll_ready
poll_ready-is_ready none e = refl
poll_ready-is_ready (some dir_in) e = refl
poll_ready-is_ready (some dir_out) e = refl

module _ {W : Type 0} where
  same_end-Turn :
      (r : Rule W) (p : PollFd) (e : Revents) (w : W) (k k' : Bool × W)
      → ok k ≡ ok k'
      → Turn r p e w k.0 k.1
      → Turn r p e w k'.0 k'.1
  same_end-Turn r p e w k k' h v =
      let same : k ≡ k' = cc h in subst (λ (x : Bool × W). Turn r p e w x.0 x.1) same v

  service_count-used :
      (r : Rule W) (w : W) → service_count r w ≡ used (Rule.direction r) (Rule.fd r w)
  unfolding service_count
  service_count-used r w = by_direction (Rule.direction r) (Rule.fd r w)
    where
      by_direction :
          (d : Direction) (f : FdWrapper)
          → elim d as (λ x. ℕ) [ dir_in ↦ f.read_count | dir_out ↦ f.write_count ] ≡ used d f
      by_direction dir_in f = refl
      by_direction dir_out f = refl

  call-Called : (r : Rule W) (w w' : W) → call r w ≡ ok w' → Called r w w'
  unfolding call
  call-Called r w w' e =
      let (w1, e1, e2) = bind_ok (Rule.callback r w) _ e in
      let (acted, e3) = passed _ (ok w1) w' e2 in
      let same : w1 ≡ w' = cc e3 in
      let acts : (used (Rule.direction r) (Rule.fd r w) ≡ used (Rule.direction r) (Rule.fd r w1))
          → Rule.interest r w1 ≡ false =
        λ h. ground (arith, acted, h, service_count-used r w, service_count-used r w1) in
      subst (Called r w) same (record { runs = e1; acts = acts })

  Called-call : (r : Rule W) (w w' : W) → Called r w w' → call r w ≡ ok w'
  unfolding call
  Called-call r w w' v =
      let acted : ((service_count r w == service_count r w') && Rule.interest r w') ≡ false =
        ground (arith, Called.acts v, service_count-used r w, service_count-used r w') in
      rw (Called.runs v, acted)

  serve_one-Turn :
      (r : Rule W) (p : PollFd) (e : Revents) (w : W) (k : Bool × W)
      → serve_one r p e w ≡ ok k
      → (e.failing ≡ false) × Turn r p e w k.0 k.1
  unfolding serve_one
  serve_one-Turn r p e w k h =
      let same : poll_ready p.events e ≡ is_ready p.events e = poll_ready-is_ready p.events e in
      let (fine, h1) = passed e.failing _ k h in
      elim (chosen (e.hung_up && has_value p.events && not (poll_ready p.events e)) _ _ k h1) [
        | inl (t, h2) ↦
            let (w1, e1, e2) = bind_ok (Rule.cancel r w) _ h2 in
            (
              fine,
              same_end-Turn r p e w (false, w1) k e2
                  (hung (sym same ∙ ground (arith, t)) (ground (arith, t)) (ground (arith, t)) e1),
            )
        | inr (t, h2) ↦ elim (chosen (poll_ready p.events e) _ _ k h2) [
          | inl (ready, h3) ↦
              let (w1, e1, e2) = bind_ok (call r w) _ h3 in
              (
                fine,
                same_end-Turn r p e w (true, w1) k e2
                    (serviced (sym same ∙ ready) (call-Called r w w1 e1)),
              )
          | inr (unready, h3) ↦ (
            fine,
            same_end-Turn r p e w (true, w) k h3
                (idle (sym same ∙ unready) (ground (arith, t, unready))),
          )
        ]
      ]

  Turn-serve_one :
      (r : Rule W) (p : PollFd) (e : Revents) (w : W) (b : Bool) (w' : W)
      → e.failing ≡ false
      → Turn r p e w b w'
      → serve_one r p e w ≡ ok (b, w')
  unfolding serve_one
  Turn-serve_one r p e w true w' fine (serviced now v) =
      let ready : poll_ready p.events e ≡ true = poll_ready-is_ready p.events e ∙ now in
      let unhung : (e.hung_up && has_value p.events && not (poll_ready p.events e)) ≡ false =
        ground (arith, ready) in
      rw (unhung, ready, fine, Called-call r w w' v)
  Turn-serve_one r p e w false w' fine (hung later up asked c) =
      let unready : poll_ready p.events e ≡ false = poll_ready-is_ready p.events e ∙ later in
      let hangs : (e.hung_up && has_value p.events && not (poll_ready p.events e)) ≡ true =
        ground (arith, unready, up, asked) in
      rw (hangs, fine, c)
  Turn-serve_one r p e w true w' fine (idle later h) =
      let unready : poll_ready p.events e ≡ false = poll_ready-is_ready p.events e ∙ later in
      let unhung : (e.hung_up && has_value p.events && not (poll_ready p.events e)) ≡ false =
        ground (arith, h) in
      rw (unhung, unready, fine)

  pub serve-Turns :
      (revents : ℕ → Revents) (idx : ℕ) (rules : List (Rule W)) (ps : List PollFd) (w : W)
      (t : List (Rule W) × W)
      → serve revents idx rules ps w ≡ ok t
      → Turns revents idx rules ps w t.0 t.1
  unfolding serve
  serve-Turns revents idx [] ps w t e =
      let same : ([], w) ≡ t = cc e in
      subst (λ (x : List (Rule W) × W). Turns revents idx [] ps w x.0 x.1) same over
  serve-Turns revents idx (r ∷ rules) [] w t e = cc
  serve-Turns revents idx (r ∷ rules) (p ∷ ps) w t e =
      let (k, e1, e2) = bind_ok (serve_one r p (revents idx) w) _ e in
      let (u, e3, e4) = bind_ok (serve revents (idx + 1) rules ps k.1) _ e2 in
      let (fine, v) = serve_one-Turn r p (revents idx) w k e1 in
      let same : (if k.0 then r ∷ u.0 else u.0, u.1) ≡ t = cc e4 in
      subst (λ (x : List (Rule W) × W). Turns revents idx (r ∷ rules) (p ∷ ps) w x.0 x.1) same
        (turn fine v (serve-Turns revents (idx + 1) rules ps k.1 u e3))

  pub Turns-serve :
      (revents : ℕ → Revents) (idx : ℕ) (rules : List (Rule W)) (ps : List PollFd) (w : W)
      (rules' : List (Rule W)) (w' : W)
      → Turns revents idx rules ps w rules' w'
      → serve revents idx rules ps w ≡ ok (rules', w')
  unfolding serve
  Turns-serve revents idx rules ps w rules' w' over = refl
  Turns-serve revents idx rules ps w rules' w' (turn {b = b} {w1 = w1} fine v vs) =
      rw (
        Turn-serve_one _ _ (revents idx) w b w1 fine v,
        Turns-serve revents (idx + 1) _ _ w1 _ w' vs,
      )
