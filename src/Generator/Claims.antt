-- ===== src/Generator/Claims.antt =====
-- Retry-safe event claims (generator/src/portscanner_generator/idempotency.py): the items and their
-- conditions, the operations, and what concurrent workers do to an item.
pub mod Item
pub mod Store
pub mod Moves
pub mod Guarantee
pub mod Lawful
pub mod Given
pub mod Outcomes
pub mod Ownership
