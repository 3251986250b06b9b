-- ===== src/Memory.antt =====
-- memory/: where the program's tasks are allocated.
pub mod Bump
