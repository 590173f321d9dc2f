-- ===== src/CardProtocol.antt =====
-- src/lib/cardMutationProtocol.ts: what a mutation of a card must know, and what a patch does.
pub mod Values
pub mod Protocol
pub mod Patching
pub mod Conflicts
