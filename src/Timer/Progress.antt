-- ===== src/Timer/Progress.antt =====
-- The threads of timer.c never get stuck: a run to the end, from every state that they can reach.
