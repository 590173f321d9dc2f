-- ===== src/Identity.antt =====
-- src/features/session/identitySessionController.ts: the session of the signed-in owner, and the
-- parts of src/lib/cloudError.ts that it calls. Each asynchronous function is cut at its awaits, so
-- that any other call may come between.
pub mod CloudError
pub mod Session
pub mod Observation
pub mod SignIn
pub mod Events
pub mod Invariant
pub mod Races
pub mod Epochs
pub mod Attempts
