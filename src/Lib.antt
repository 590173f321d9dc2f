-- ===== src/Lib.antt =====
-- SonFlash, a flash-card program for learning English: a web client (src/) that keeps a library of
-- cards in the browser and in Firestore, and cloud functions (functions/) that serve it. This
-- library models parts of both that keep state of their own.
--
-- Parts, and the file that models each:
-- + RateLimit, from functions/src/rateLimiter.ts and functions/src/serviceBudget.ts. A budget is a
--   window of one hour with a count of calls. RateLimit has evaluateRateLimit; RateLimit/Memory the
--   store createMemoryRateLimitStore, a bounded map; RateLimit/Transaction the transaction over
--   several budget documents and the budgets of an owner and of the service; RateLimit/Fallback the
--   deadline and the fallback from the database to the memory store. RateLimit/AiBudgets, from
--   functions/src/aiRequestBudget.ts, has the budgets of the vocabulary actions. Theorems about the
--   limiter stand in Decision and in the two files Laws.
-- + PendingStore/Lease, from src/lib/pendingOperationStore.ts: the lease under which one tab of
--   the browser flushes the pending operations of a user. Exclusion has the theorems on calls by
--   several tabs.
-- + Lesson, from src/features/dailyLearning/lessonReducer.ts: State the data and
--   createLessonState, Reducer one function for each action of reduceLessonState, Invariant and
--   Actions what holds between two actions, Runs the theorems on lists of actions. Controller and
--   Calls have src/features/dailyLearning/dailySessionController.ts, which keeps a lesson and saves
--   its reviews: a save is sent by `persist` and ends in `settle_save`. Saves, Sessions, Later,
--   LateSaves and Unchanged have the theorems on them.
-- + Practice/Lifecycle, from src/features/practice/practiceSessionLifecycle.ts: the state of a
--   practice session and the closures on its owner and its activities, Practice/Claims those on its
--   reviews. Reviews has the theorems on the review sets, Schedule those on calls in any order,
--   Settled those on the calls after a review is saved.
-- + CardProtocol, from src/lib/cardMutationProtocol.ts: Values the comparison of field values,
--   Protocol the counters, preconditions and patches of a card; Patching and Conflicts the theorems.
-- + DeviceSync, from src/lib/deviceSync.ts: Operations has the pending operations of a device and
--   mergePendingOperations, which compacts their queue; Meaning what an operation does to a field of
--   a card, under its mask, to the reviews that the card receives and to the metadata of the last
--   operation; Masks the lemmas on masks and on two patches as one; Commands, Effects, Queues and
--   Merge the theorems on the compaction against that meaning; Size its length and the scope of an
--   owner.
-- + Listen, from src/features/listenMvp/listenMvpInteraction.ts: Interaction the reducer of a
--   listening lesson, Answers the reporter of its answers.
-- + Identity, from src/features/session/identitySessionController.ts and src/lib/cloudError.ts:
--   Session has the state, Observation the observation of the owner and the loads of the owner's
--   epoch, SignIn the sign-in and the sign-out, Events all of them as steps. Invariant, Races,
--   Epochs and Attempts have the theorems.
-- + SyncHealth/Model, from src/features/sync/syncHealthModel.ts, with its theorems in Meaning.
-- + Library, from src/features/library/customDecks.ts (CustomDecks, with the theorems in
--   DeckLaws), src/lib/sessionCards.ts (State) and
--   src/features/librarySession/ownerLibrarySessionController.ts: State has the state, Activation
--   what an activation does and Migration what its callbacks do, Legacy the migration of older
--   cards, Events all of them as steps. Late and Owners have the theorems. Backup has
--   src/lib/deviceBackupOwnership.ts, with its theorem in Ownership.
-- + Gamification, from src/features/gamification/gamificationModel.ts: Values the checks and the
--   history, Operations the pending operations, Rebase the snapshots and their rebase, Watermarks
--   those of the streams. Normal has the theorems on the pending operations, Once those on the
--   rebase.
-- + AsyncPool/Machine, from src/lib/asyncPool.ts: the workers of a pool as a step relation.
--   Results has the theorems on what a pool ends with, Progress those on its steps.
-- + Examples: the theorems at concrete inputs.
-- + Prelude: lists, maps, text, numbers, errors and sorting, shared by all.
--
-- The parts meet where a caller composes them: a callable function consumes a budget through
-- RateLimit/Fallback, which calls RateLimit/Transaction and on failure RateLimit/Memory; a pending
-- operation patches a card by CardProtocol; a flush of pending operations, compacted by
-- DeviceSync, runs under the lease; the views send calls to Practice and to the daily session of
-- Lesson/Controller, which drives the lesson of Lesson/Reducer; Identity says who is signed in and
-- with which epoch, for which owner the session of Library is activated, and Library normalises
-- the decks by CustomDecks and judges errors by Identity/CloudError, as Identity does itself.
--
-- How the code is read. A function that throws gives an Outcome. A number that comes from storage
-- or from an argument is a Number: natural, negative or neither; clocks are natural numbers of
-- milliseconds. Arithmetic is exact; RateLimit/Decision compares the numbers that the rate limiter
-- stores with the safe integers. A Map or a Set is a list in insertion order. Stateful code is a
-- function on its state; an await is the boundary between two such functions, and a schedule is a
-- list of calls or of steps. A Firestore or an IndexedDB transaction is one step: if it throws it
-- changes nothing. All recursion is on lists, so there is no fuel. The time of a pending operation
-- is the instant that its canonical text stands for.
--
-- What is a parameter: SHA-256, toLocaleLowerCase, includes, trim and the other functions and
-- patterns on texts, the length of a text, the parsing of dates, the exercise engine of a lesson,
-- the mapper of a pool and what awaited operations come to: each event or call that ends a wait
-- carries that, and it may come at any time and in any order, also more than once. A Symbol or the
-- identity of a promise is the next of a counter. Listeners are left out: they are taken to change
-- nothing of the object that calls them. reviewCard gives a promise and does not throw before it.
-- What a cache holds and whether it throws are values. onStart of prepare is taken to touch no
-- state of the session. The requested concurrency of a pool is a natural number. A card of a
-- lesson is a value that the engine reads.
--
-- Not modelled: the views, tombstones and identities of cards, the repository of cards and its
-- replica, the adapters and the cache of the sessions, the storage and the flush of pending
-- operations, catalogs, sharing, import and export, the storage of experience points, the
-- migrations, the browser extension and the scripts. A pool's abort signal as its mappers see it
-- is not modelled either: a mapper that stops early is one that settles with an error.
pub mod Prelude
pub mod RateLimit
pub mod PendingStore
pub mod Lesson
pub mod Practice
pub mod AsyncPool
pub mod CardProtocol
pub mod DeviceSync
pub mod Listen
pub mod Identity
pub mod SyncHealth
pub mod Library
pub mod Gamification
pub mod Examples
