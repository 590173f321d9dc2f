-- ===== src/Library.antt =====
-- The library of the signed-in owner: src/features/library/customDecks.ts,
-- src/lib/sessionCards.ts, src/lib/deviceBackupOwnership.ts and
-- src/features/librarySession/ownerLibrarySessionController.ts.
pub mod CustomDecks
pub mod DeckLaws
pub mod State
pub mod Activation
pub mod Migration
pub mod Legacy
pub mod Events
pub mod Late
pub mod Owners
pub mod Backup
pub mod Ownership
