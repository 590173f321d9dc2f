-- ===== src/DeviceSync.antt =====
-- src/lib/deviceSync.ts: the pending operations of a device and how the queue is compacted.
pub mod Operations
pub mod Meaning
pub mod Masks
pub mod Commands
pub mod Effects
pub mod Queues
pub mod Merge
pub mod Size
