-- ===== src/Inventory.antt =====
-- The inventory of targets (inventory/src/portscanner_inventory).
pub mod Error
pub mod Target
pub mod Event
pub mod Store
pub mod Outbox
pub mod Snapshot
pub mod Ownership
pub mod Rescan
pub mod Tests
