-- ===== src/Sync.antt =====
-- sync/: the primitives by which tasks talk to one another.
pub mod RingBuffer
pub mod Waitqueue
pub mod Pipe
pub mod Channel
pub mod Priority
pub mod Zerocopy
pub mod Signal
pub mod Select
pub mod Mutex
pub mod OnceLock
pub mod Pubsub
