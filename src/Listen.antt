-- ===== src/Listen.antt =====
-- src/features/listenMvp/listenMvpInteraction.ts: the state of a listening lesson, and the reporter of
-- its answers.
pub mod Interaction
pub mod Answers
