-- ===== src/EventLoop/Refine.antt =====
-- A call of `wait_next_event` and the steps of a round.
