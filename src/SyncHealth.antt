-- ===== src/SyncHealth.antt =====
-- src/features/sync/syncHealthModel.ts: what the user is told of the cloud, and for which owner's
-- epoch a synchronisation runs.
pub mod Model
pub mod Meaning
