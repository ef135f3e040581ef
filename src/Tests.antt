-- ===== src/Tests.antt =====
-- Concrete instances of the third-party code, and inputs at which the theorems are applied.
pub mod Wire
pub mod Frames
pub mod Batches
pub mod Loops
pub mod Lookups
pub mod Managers
pub mod Partitioned
pub mod Sendings
pub mod Routes
pub mod Dispatches
pub mod Engines
pub mod Multis
pub mod Readers
pub mod Numbers
pub mod Senders
pub mod Tokens
pub mod Builders
pub mod Compressions
pub mod Retries
