-- ===== src/EventLoop/Rounds.antt =====
-- The second loop, and a round as a whole.
use cs144_sponge.Base.{
  ℕ, ◌+◌, ◌≡◌, refl, Bool, true, false, not, ◌&&◌, ◌==◌, Bool-cases, inl, inr, Option, none, some,
  has_value, List, [], ◌∷◌, All, arith, ok, if◌then◌else◌,
}
use cs144_sponge.EventLoop.{
  Direction, Rule, Outcome, success, timeout, exit_loop, PollFd, Revents, no_events, Polled,
  interrupted, poll_failed, polled, something_to_poll, poll_ready, call, serve_one, serve, answered,
  wait_next_event,
}
use cs144_sponge.EventLoop.SetUp.{
  Free, Guarded, Fit, Acts, AskedFree, Asked, as-Fit, Asked-on, set_up-Fit,
}

-- A round that began well.
pub data NoFailure : Polled → Type 0 where
  by_signal : NoFailure interrupted
  by_error : NoFailure poll_failed
  by_events :
      {count : ℕ} {revents : ℕ → Revents}
      → ((i : ℕ) → (revents i).failing ≡ false)
      → NoFailure (polled count revents)

module _ {W : Type 0} (P G : W → Type 0) where
  ready_asked : (o : Option Direction) (e : Revents) → poll_ready o e ≡ true → has_value o ≡ true
  unfolding poll_ready
  ready_asked none e h = ground (arith, h)
  ready_asked (some d) e h = refl

  call_acts :
      (r : Rule W) (w w' : W) → Rule.callback r w ≡ ok w' → (Acts P G) r w w' → call r w ≡ ok w'
  unfolding call
  call_acts r w w' e a = rw (e, a)

  serve_one-Free :
      (r : Rule W) (p : PollFd) (e : Revents) (w : W)
      → (Free P G) r
      → e.failing ≡ false
      → P w
      → (b : Bool) × (w' : W) × (serve_one r p e w ≡ ok (b, w')) × P w' × (G w → G w')
  unfolding serve_one
  serve_one-Free r p e w f fine v =
      elim (Bool-cases (e.hung_up && has_value p.events && not (poll_ready p.events e))) [
        | inl h ↦ let (w', e', p', g') = Free.cancels f w v in (false, w', rw (h, fine, e'), p', g')
        | inr h ↦ elim (Bool-cases (poll_ready p.events e)) [
          | inl k ↦
              let (w', e', p', g', a) = Free.calls f w v in
              (true, w', rw (h, k, fine, call_acts r w w' e' a), p', g')
          | inr k ↦ (true, w, rw (h, k, fine), v, λ g. g)
        ]
      ]

  serve_one-Guarded :
      (r : Rule W) (p : PollFd) (e : Revents) (w : W)
      → (Guarded P G) r
      → (has_value p.events ≡ true → G w)
      → e.failing ≡ false
      → P w
      → (b : Bool) × (w' : W) × (serve_one r p e w ≡ ok (b, w')) × P w'
  unfolding serve_one
  serve_one-Guarded r p e w f asked fine v =
      elim (Bool-cases (e.hung_up && has_value p.events && not (poll_ready p.events e))) [
        | inl h ↦ let (w', e', p') = Guarded.cancels f w v in (false, w', rw (h, fine, e'), p')
        | inr h ↦ elim (Bool-cases (poll_ready p.events e)) [
          | inl k ↦
              let (w', e', p', a) = Guarded.calls f w v (asked (ready_asked p.events e k)) in
              (true, w', rw (h, k, fine, call_acts r w w' e' a), p')
          | inr k ↦ (true, w, rw (h, k, fine), v)
        ]
      ]

  kept-Free :
      (b : Bool) (r : Rule W) (rules : List (Rule W))
      → (Free P G) r
      → All (Free P G) rules
      → All (Free P G) (if b then r ∷ rules else rules)
  kept-Free true r rules f v = (f, v)
  kept-Free false r rules f v = v

  kept-Fit :
      (b : Bool) (r : Rule W) (rules : List (Rule W))
      → (Free P G) r
      → (Fit P G) rules
      → (Fit P G) (if b then r ∷ rules else rules)
  kept-Fit true r rules f v = inl (f, v)
  kept-Fit false r rules f v = v

  kept-Guarded :
      (b : Bool) (r : Rule W) (rules : List (Rule W))
      → (Guarded P G) r
      → All (Free P G) rules
      → (Fit P G) (if b then r ∷ rules else rules)
  kept-Guarded true r rules f v = inr (f, v)
  kept-Guarded false r rules f v = as-Fit P G rules v

  serve-Free :
      (revents : ℕ → Revents) (idx : ℕ) (rules : List (Rule W)) (ps : List PollFd) (w : W)
      → ((i : ℕ) → (revents i).failing ≡ false)
      → (AskedFree P G) rules ps
      → P w
      → (rules' : List (Rule W)) × (w' : W) × (serve revents idx rules ps w ≡ ok (rules', w'))
        × P w'
        × All (Free P G) rules'
  unfolding serve
  serve-Free revents idx [] ps w fine a v = ([], w, refl, v, tt)
  serve-Free revents idx (r ∷ rules) [] w fine a v = elim a [ ]
  serve-Free revents idx (r ∷ rules) (p ∷ ps) w fine (f, a) v =
      let (b, w1, e1, v1, _) = serve_one-Free r p (revents idx) w f (fine idx) v in
      let (rules', w', e', v', k') = serve-Free revents (idx + 1) rules ps w1 fine a v1 in
      (if b then r ∷ rules' else rules', w', rw (e1, e'), v', kept-Free b r rules' f k')

  serve-Fit :
      (revents : ℕ → Revents) (idx : ℕ) (rules : List (Rule W)) (ps : List PollFd) (w : W)
      → ((i : ℕ) → (revents i).failing ≡ false)
      → (Asked P G) rules ps w
      → P w
      → (rules' : List (Rule W)) × (w' : W) × (serve revents idx rules ps w ≡ ok (rules', w'))
        × P w'
        × (Fit P G) rules'
  unfolding serve
  serve-Fit revents idx [] ps w fine a v = ([], w, refl, v, tt)
  serve-Fit revents idx (r ∷ rules) [] w fine a v = elim a [ ]
  serve-Fit revents idx (r ∷ rules) (p ∷ ps) w fine (inl (f, a)) v =
      let (b, w1, e1, v1, g1) = serve_one-Free r p (revents idx) w f (fine idx) v in
      let (rules', w', e', v', k') =
        serve-Fit revents (idx + 1) rules ps w1 fine (Asked-on P G rules ps w w1 g1 a) v1 in
      (if b then r ∷ rules' else rules', w', rw (e1, e'), v', kept-Fit b r rules' f k')
  serve-Fit revents idx (r ∷ rules) (p ∷ ps) w fine (inr (f, asked, a)) v =
      let (b, w1, e1, v1) = serve_one-Guarded r p (revents idx) w f asked (fine idx) v in
      let (rules', w', e', v', k') = serve-Free revents (idx + 1) rules ps w1 fine a v1 in
      (if b then r ∷ rules' else rules', w', rw (e1, e'), v', kept-Guarded b r rules' f k')

  answered-Fit :
      (answer : Polled) (rules : List (Rule W)) (ps : List PollFd) (w : W)
      → NoFailure answer
      → (Fit P G) rules
      → (Asked P G) rules ps w
      → P w
      → (o : Outcome) × (rules' : List (Rule W)) × (w' : W) × (answered answer rules ps w
          ≡ ok (o, rules', w'))
        × P w'
        × (Fit P G) rules'
  unfolding answered
  answered-Fit interrupted rules ps w n k a v = (exit_loop, rules, w, refl, v, k)
  answered-Fit poll_failed rules ps w n k a v =
      let (rules', w', e', v', k') = serve-Fit (λ i. no_events) 0 rules ps w (λ i. refl) a v in
      (success, rules', w', rw e', v', k')
  answered-Fit (polled count revents) rules ps w (by_events fine) k a v =
      elim (Bool-cases (count == 0)) [
        | inl e ↦ (timeout, rules, w, rw e, v, k)
        | inr e ↦
            let (rules', w', e', v', k') = serve-Fit revents 0 rules ps w fine a v in
            (success, rules', w', rw (e, e'), v', k')
      ]

  -- Rules whose callbacks and cancels keep `P`, throw nothing and do something about their descriptors,
  -- of which one at most needs `G` while it is interested, keep `P` in a round as long as `poll` reports
  -- no failing descriptor; the rules that are left are of the same kind.
  pub wait_next_event-Fit :
      (poll : List PollFd → Polled) (rules : List (Rule W)) (w : W)
      → ((ps : List PollFd) → NoFailure (poll ps))
      → (Fit P G) rules
      → P w
      → (o : Outcome) × (rules' : List (Rule W)) × (w' : W) × (wait_next_event poll rules w
          ≡ ok (o, rules', w'))
        × P w'
        × (Fit P G) rules'
  unfolding wait_next_event
  wait_next_event-Fit poll rules w n k v =
      let (rules1, ps, w1, e1, v1, k1, a1) = set_up-Fit P G rules w k v in
      elim (Bool-cases (something_to_poll ps)) [
        | inl e ↦
            let (o, rules', w', e', v', k') = answered-Fit (poll ps) rules1 ps w1 (n ps) k1 a1 v1 in
            (o, rules', w', rw (e1, e, e'), v', k')
        | inr e ↦ (exit_loop, rules1, w1, rw (e1, e), v1, k1)
      ]
