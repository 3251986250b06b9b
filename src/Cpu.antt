-- ===== src/Cpu.antt =====
-- cpu/: the core's alarms and events, and the list of its executors.
pub mod Alarm
pub mod Kernel
pub mod Executors
