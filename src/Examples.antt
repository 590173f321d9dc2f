-- ===== src/Examples.antt =====
-- Runs of the models on small inputs.
mod RateLimit
mod Budgets
mod PendingStore
mod Lesson
mod Practice
mod AsyncPool
mod DeviceSync
mod CardProtocol
mod Listen
mod Identity
mod Daily
mod SyncHealth
mod Library
mod Gamification
