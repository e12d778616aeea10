-- ===== src/EventLoop.antt =====
-- libsponge/util/eventloop.{hh,cc}: the rules that are served when their descriptors are ready.
-- `W` is the state that the callbacks share, with the descriptors in it. What the kernel's `poll`
-- answers is an argument. No callback of the library adds a rule.
pub mod SetUp
pub mod Rounds
pub mod Steps
pub mod Description
pub mod Refine
pub mod Failure
mod Examples
use cs144_sponge.Base.{
  ℕ, ◌+◌, Bool, true, false, not, ◌&&◌, ◌||◌, ◌==◌, Option, none, some, has_value, List, [], ◌∷◌,
  ◌++◌, if◌then◌else◌, Result, ok, err, runtime_error, undefined, ◌>>=◌,
}
use cs144_sponge.FileDescriptor.{FdWrapper}

-- `EventLoop::Direction`, `In` and `Out`.
pub data Direction : Type 0 where
  dir_in dir_out : Direction

-- The rule's descriptor is a handle on one of the state's: a view of it.
pub record Rule {ℓ} (W : Type ℓ) : Type ℓ where
  pub fd : W → FdWrapper
  pub direction : Direction
  pub callback : W → Result W
  pub interest : W → Bool
  pub cancel : W → Result W

-- `EventLoop::Result`, of which `Exit` is `exit_loop`.
pub data Outcome : Type 0 where
  success timeout exit_loop : Outcome

-- `pollfd` before the call: no events stand for the placeholder.
pub record PollFd : Type 0 where
  pub fd_num : ℕ
  pub events : Option Direction

-- The bits of `revents` that are read.
pub record Revents : Type 0 where
  pub readable : Bool
  pub writable : Bool
  pub hung_up : Bool
  pub failing : Bool

abbrev pub no_events : Revents
no_events = record { readable = false; writable = false; hung_up = false; failing = false }

-- What `poll` answers: a signal, another error, or a count and the events by position.
pub data Polled : Type 0 where
  interrupted : Polled
  poll_failed : Polled
  polled : (count : ℕ) → (ℕ → Revents) → Polled

-- `something_to_poll`
unfoldable pub something_to_poll : List PollFd → Bool
something_to_poll [] = false
something_to_poll (p ∷ ps) = has_value p.events || something_to_poll ps

unfoldable pub poll_ready : Option Direction → Revents → Bool
poll_ready none e = false
poll_ready (some dir_in) e = e.readable
poll_ready (some dir_out) e = e.writable

module _ {ℓ} {W : Type ℓ} where
  unfoldable pub add_rule : Rule W → List (Rule W) → List (Rule W)
  add_rule r rules = rules ++ (r ∷ [])

  unfoldable pub service_count : Rule W → W → ℕ
  service_count r w = elim (Rule.direction r) [
    | dir_in ↦ (Rule.fd r w).read_count
    | dir_out ↦ (Rule.fd r w).write_count
  ]

  -- The descriptor cannot be read any more, or is closed.
  unfoldable pub is_defunct : Rule W → W → Bool
  is_defunct r w = elim (Rule.direction r) [
    | dir_in ↦ (Rule.fd r w).eof || (Rule.fd r w).closed
    | dir_out ↦ (Rule.fd r w).closed
  ]

  unfoldable pub pollfd_for : Rule W → W → PollFd
  pollfd_for r w = record {
    fd_num = (Rule.fd r w).fd;
    events = if Rule.interest r w then some (Rule.direction r) else none;
  }

  -- The first loop: the rules that are left, and what is polled for each of them.
  unfoldable pub set_up : List (Rule W) → W → Result (List (Rule W) × List PollFd × W)
  set_up [] w = ok ([], [], w)
  set_up (r ∷ rules) w = (if is_defunct r w then Rule.cancel r w else ok w) >>= λ w'.
      set_up rules w' >>= λ t.
      ok (if is_defunct r w then t else (r ∷ t.0, pollfd_for r w ∷ t.1, t.2))

  -- The callback has read or written the descriptor, or is not interested any more.
  unfoldable pub call : Rule W → W → Result W
  call r w = Rule.callback r w >>= λ w'.
      if (service_count r w == service_count r w') && Rule.interest r w'
      then err runtime_error
      else ok w'

  -- One pass of the second loop's body: is the rule kept?
  unfoldable pub serve_one : Rule W → PollFd → Revents → W → Result (Bool × W)
  serve_one r p e w =
      if e.failing
      then err runtime_error
      else if e.hung_up && has_value p.events && not (poll_ready p.events e)
      then (Rule.cancel r w >>= λ w'. ok (false, w'))
      else if poll_ready p.events e
      then (call r w >>= λ w'. ok (true, w'))
      else ok (true, w)

  -- The second loop, from the position `idx` on.
  unfoldable pub serve :
      (ℕ → Revents) → ℕ → List (Rule W) → List PollFd → W → Result (List (Rule W) × W)
  serve revents idx [] ps w = ok ([], w)
  serve revents idx (r ∷ rules) [] w = err undefined
  serve revents idx (r ∷ rules) (p ∷ ps) w = serve_one r p (revents idx) w >>= λ k.
      serve revents (idx + 1) rules ps k.1 >>= λ t. ok (if k.0 then r ∷ t.0 else t.0, t.1)

  -- After the call of `poll`. An error that is no signal is dropped, and no events are seen.
  unfoldable pub answered :
      Polled → List (Rule W) → List PollFd → W → Result (Outcome × List (Rule W) × W)
  answered interrupted rules ps w = ok (exit_loop, rules, w)
  answered poll_failed rules ps w =
      serve (λ idx. no_events) 0 rules ps w >>= λ t. ok (success, t.0, t.1)
  answered (polled count revents) rules ps w =
      if count == 0
      then ok (timeout, rules, w)
      else (serve revents 0 rules ps w >>= λ t. ok (success, t.0, t.1))

  unfoldable pub wait_next_event :
      (List PollFd → Polled) → List (Rule W) → W → Result (Outcome × List (Rule W) × W)
  wait_next_event poll rules w = set_up rules w >>= λ t.
      if something_to_poll t.1 then answered (poll t.1) t.0 t.1 t.2 else ok (exit_loop, t.0, t.2)
