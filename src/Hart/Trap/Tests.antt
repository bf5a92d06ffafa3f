-- ===== src/Hart/Trap/Tests.antt =====
-- Traps and returns on concrete harts.
