-- ===== src/Lesson.antt =====
-- src/features/dailyLearning/lessonReducer.ts: the state machine of one daily lesson.
-- A lesson is generic in the exercise engine (exerciseEngine.ts) and in the text functions of the
-- platform, which it only calls: they are the section's parameters, with no law assumed.
pub mod State
pub mod Reducer
pub mod Invariant
pub mod Actions
pub mod Runs
pub mod Controller
pub mod Calls
pub mod Saves
pub mod Sessions
pub mod Later
pub mod LateSaves
pub mod Unchanged
