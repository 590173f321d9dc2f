-- ===== src/PendingStore.antt =====
-- src/lib/pendingOperationStore.ts: the queue of operations that wait for the cloud, and the lease
-- under which one tab at a time flushes it.
pub mod Lease
pub mod Exclusion
