-- ===== src/Counter/Examples.antt =====
-- A counter that restarts, with a decode fault on the way.
