-- ===== src/Gamification.antt =====
-- src/features/gamification/gamificationModel.ts: experience points, their pending operations, and how
-- the snapshot of a device is rebased on that of the cloud.
pub mod Values
pub mod Operations
pub mod Rebase
pub mod Watermarks
pub mod Normal
pub mod Once
