-- ===== src/EventLoop/Failure.antt =====
-- A `poll` that fails.
use cs144_sponge.Base.{
  ℕ, ◌+◌, ◌≡◌, refl, true, false, List, [], ◌∷◌, ok, bind_ok, Bool, if◌then◌else◌, Option, none,
  some, subst,
}
use cs144_sponge.EventLoop.{
  Direction, dir_in, dir_out, Rule, PollFd, no_events, poll_failed, success, set_up,
  something_to_poll, poll_ready, serve_one, serve, answered, wait_next_event, is_defunct,
  pollfd_for,
}

unready : (o : Option Direction) → poll_ready o no_events ≡ false
unfolding poll_ready
unready none = refl
unready (some dir_in) = refl
unready (some dir_out) = refl

module _ {W : Type 0} where
  -- One position for each rule.
  abbrev Paired : List (Rule W) → List PollFd → Type 0
  Paired [] ps = Unit {0}
  Paired (r ∷ rules) [] = ⊥
  Paired (r ∷ rules) (p ∷ ps) = Paired rules ps

  serve-no_events :
      (idx : ℕ) (rules : List (Rule W)) (ps : List PollFd) (w : W)
      → Paired rules ps
      → serve (λ i. no_events) idx rules ps w ≡ ok (rules, w)
  unfolding serve serve_one
  serve-no_events idx [] ps w v = refl
  serve-no_events idx (r ∷ rules) [] w v = elim v [ ]
  serve-no_events idx (r ∷ rules) (p ∷ ps) w v =
      rw (unready p.events, serve-no_events (idx + 1) rules ps w v)

  same_ok : {x y : List (Rule W) × List PollFd × W} → ok x ≡ ok y → x ≡ y
  same_ok e = cc

  Paired-step :
      (b : Bool) (r : Rule W) (p : PollFd) (t : List (Rule W) × List PollFd × W)
      → Paired t.0 t.1
      → Paired
          (if b then t else (r ∷ t.0, p ∷ t.1, t.2)).0
          (if b then t else (r ∷ t.0, p ∷ t.1, t.2)).1
  Paired-step true r p t v = v
  Paired-step false r p t v = v

  -- `set_up` asks once for each rule that is left.
  set_up-Paired :
      (rules : List (Rule W)) (w : W) (t : List (Rule W) × List PollFd × W)
      → set_up rules w ≡ ok t
      → Paired t.0 t.1
  unfolding set_up
  set_up-Paired [] w t e =
      subst (λ (x : List (Rule W) × List PollFd × W). Paired x.0 x.1) (same_ok e) tt
  set_up-Paired (r ∷ rules) w t e =
      let (w1, e1, e2) = bind_ok (if is_defunct r w then Rule.cancel r w else ok w) _ e in
      let (t1, e3, e4) = bind_ok (set_up rules w1) _ e2 in
      subst (λ (x : List (Rule W) × List PollFd × W). Paired x.0 x.1) (same_ok e4)
        (Paired-step (is_defunct r w) r (pollfd_for r w) t1 (set_up-Paired rules w1 t1 e3))

  -- When `poll` fails with an error that is no signal, no exception is thrown: the call returns
  -- `Success`, and no callback of the rules that are left was called.
  pub poll_failure_dropped :
      (rules rules' : List (Rule W)) (ps : List PollFd) (w w' : W)
      → set_up rules w ≡ ok (rules', ps, w')
      → something_to_poll ps ≡ true
      → wait_next_event (λ x. poll_failed) rules w ≡ ok (success, rules', w')
  unfolding wait_next_event answered
  poll_failure_dropped rules rules' ps w w' e h =
      rw (e, h, serve-no_events 0 rules' ps w' (set_up-Paired rules w (rules', ps, w') e))
