-- ===== src/Practice.antt =====
-- src/features/practice/practiceSessionLifecycle.ts: who may prepare, play and review a practice.
pub mod Lifecycle
pub mod Claims
pub mod Reviews
pub mod Schedule
pub mod Settled
