-- ===== src/EventLoop/Description.antt =====
-- What a round is, in steps.
use cs144_sponge.Base.{
  ℕ, Option, none, some, ◌||◌, has_value, ◌≡◌, Bool, true, false, ◌==◌, List, [], ◌∷◌, ok,
}
use cs144_sponge.FileDescriptor.{FdWrapper}
use cs144_sponge.EventLoop.{
  Direction, dir_in, dir_out, Rule, Outcome, success, timeout, exit_loop, PollFd, Revents,
  no_events, Polled, interrupted, poll_failed, polled,
}
use cs144_sponge.EventLoop.Steps.{Turns}

-- The descriptor is at its end for reading, or closed.
abbrev pub is_over : Direction → FdWrapper → Bool
is_over dir_in f = f.eof || f.closed
is_over dir_out f = f.closed

-- What is asked for: the rule's direction if it is interested.
abbrev pub asked : Bool → Direction → Option Direction
asked true d = some d
asked false d = none

abbrev pub entry_for : {W : Type 0} → Rule W → W → PollFd
entry_for r w = record {
  fd_num = (Rule.fd r w).fd;
  events = asked (Rule.interest r w) (Rule.direction r);
}

-- Something is asked for.
abbrev pub any_asked : List PollFd → Bool
any_asked [] = false
any_asked (p ∷ ps) = has_value p.events || any_asked ps

-- The rules whose descriptor is over are cancelled and dropped; the others are kept, and each has
-- its entry in what is polled, set up from the state at its place in the order.
pub data Prepared {W : Type 0} : List (Rule W) → W → List (Rule W) → List PollFd → W → Type 0 where
  ended : {w : W} → Prepared [] w [] [] w
  dropped :
      {r : Rule W} {rules rules' : List (Rule W)} {ps : List PollFd} {w w1 w' : W}
      → is_over (Rule.direction r) (Rule.fd r w) ≡ true
      → Rule.cancel r w ≡ ok w1
      → Prepared rules w1 rules' ps w'
      → Prepared (r ∷ rules) w rules' ps w'
  kept :
      {r : Rule W} {rules rules' : List (Rule W)} {ps : List PollFd} {w w' : W}
      → is_over (Rule.direction r) (Rule.fd r w) ≡ false
      → Prepared rules w rules' ps w'
      → Prepared (r ∷ rules) w (r ∷ rules') (entry_for r w ∷ ps) w'

-- What follows the call of `poll`.
pub data After {W : Type 0} (rules : List (Rule W)) (ps : List PollFd) (w : W)
    : Polled → Outcome → List (Rule W) → W → Type 0 where
  by_signal : After rules ps w interrupted exit_loop rules w
  by_error :
      {rules' : List (Rule W)} {w' : W}
      → Turns (λ i. no_events) 0 rules ps w rules' w'
      → After rules ps w poll_failed success rules' w'
  by_time :
      {count : ℕ} {revents : ℕ → Revents}
      → count ≡ 0
      → After rules ps w (polled count revents) timeout rules w
  by_events :
      {count : ℕ} {revents : ℕ → Revents} {rules' : List (Rule W)} {w' : W}
      → (count == 0) ≡ false
      → Turns revents 0 rules ps w rules' w'
      → After rules ps w (polled count revents) success rules' w'

-- A round: there is nothing to poll, or `poll` is called.
pub data Round {W : Type 0} (poll : List PollFd → Polled) (rules : List (Rule W)) (w : W)
    : Outcome → List (Rule W) → W → Type 0 where
  nothing :
      {rules1 : List (Rule W)} {ps : List PollFd} {w1 : W}
      → Prepared rules w rules1 ps w1
      → any_asked ps ≡ false
      → Round poll rules w exit_loop rules1 w1
  waited :
      {rules1 rules' : List (Rule W)} {ps : List PollFd} {w1 w' : W} {o : Outcome}
      → Prepared rules w rules1 ps w1
      → any_asked ps ≡ true
      → After rules1 ps w1 (poll ps) o rules' w'
      → Round poll rules w o rules' w'
