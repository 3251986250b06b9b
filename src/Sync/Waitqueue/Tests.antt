-- ===== src/Sync/Waitqueue/Tests.antt =====
-- A registration of two wakers, which is full.
