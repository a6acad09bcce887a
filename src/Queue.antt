-- ===== src/Queue.antt =====
-- pkg/queue: the segments of a queue, the queue, and the consumers that read it.
pub mod Segment
pub mod SeqRange
pub mod Store
pub mod FanOut
pub mod Examples
