-- ===== src/Mem/Tests.antt =====
-- The memory routines at concrete inputs.
