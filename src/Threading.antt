-- ===== src/Threading.antt =====
-- interfaces/xpcf/threading: buffers that threads share.
pub mod Buffer
pub mod Queue
pub mod Fifo
pub mod Circular
pub mod Drop
pub mod Bounded
