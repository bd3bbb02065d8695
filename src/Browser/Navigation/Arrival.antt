-- ===== src/Browser/Navigation/Arrival.antt =====
-- A navigation that nothing hinders arrives.
