-- ===== src/Producer.antt =====
-- src/producer.rs: keys and messages, the choice of a partition, batching, and the sending of
-- batches.
pub mod Message
pub mod Keys
pub mod Batching
pub mod Flushing
pub mod Contents
pub mod Splitting
pub mod Shape
pub mod Compressing
pub mod Resending
pub mod Resent
pub mod Sending
pub mod Receipts
