-- ===== src/Consumer.antt =====
-- src/consumer: `ConsumerEngine`, the task behind each consumer.
pub mod Ids
pub mod Start
pub mod Engine
pub mod Deliver
pub mod Steps
pub mod Compressed
pub mod Expected
pub mod Before
pub mod DeadLetters
pub mod Handled
pub mod Resume
pub mod Quiet
pub mod Flow
pub mod Unacked
pub mod Topic
pub mod Available
pub mod MidBatch
pub mod Multi
pub mod Builder
