-- ===== src/Generator.antt =====
-- The prioritized dispatcher of Scanner resources (generator/src/portscanner_generator).
pub mod Error
pub mod Revalidation
pub mod Claims
pub mod World
pub mod Cancellation
pub mod Dispatch
pub mod Process
pub mod Batch
pub mod Reader
pub mod Tests
