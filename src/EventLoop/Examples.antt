-- ===== src/EventLoop/Examples.antt =====
-- A loop with one rule, which reads.
use cs144_sponge.Base.{◌≡◌, refl, true, false, List, [], ◌∷◌, ok}
use cs144_sponge.FileDescriptor.{FdWrapper, register_read}
use cs144_sponge.EventLoop.{
  Rule, dir_in, success, PollFd, Polled, polled, poll_failed, set_up, pollfd_for, is_defunct,
  something_to_poll, wait_next_event,
}
use cs144_sponge.EventLoop.Failure.{poll_failure_dropped}

abbrev reading : Rule FdWrapper
reading = record {
  fd = λ f. f;
  direction = dir_in;
  callback = λ f. ok (register_read f);
  interest = λ f. true;
  cancel = λ f. ok f;
}

abbrev some_fd : FdWrapper
some_fd = record { fd = 7; eof = false; closed = false; read_count = 0; write_count = 0 }

abbrev ready : List PollFd → Polled
ready ps =
    polled 1 (λ i. record { readable = true; writable = false; hung_up = false; failing = false })

set_up-reading :
    set_up (reading ∷ []) some_fd ≡ ok (reading ∷ [], pollfd_for reading some_fd ∷ [], some_fd)
unfolding set_up is_defunct
set_up-reading = refl

asked_reading : something_to_poll (pollfd_for reading some_fd ∷ []) ≡ true
unfolding something_to_poll pollfd_for
asked_reading = refl

poll_failure_dropped_example :
    wait_next_event (λ ps. poll_failed) (reading ∷ []) some_fd ≡ ok (success, reading ∷ [], some_fd)
poll_failure_dropped_example =
    poll_failure_dropped (reading ∷ []) (reading ∷ []) (pollfd_for reading some_fd ∷ []) some_fd
      some_fd set_up-reading asked_reading
