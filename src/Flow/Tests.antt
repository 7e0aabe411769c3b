-- ===== src/Flow/Tests.antt =====
-- The counters of a server at concrete amounts.
