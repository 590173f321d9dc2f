-- ===== src/Lesson/Controller.antt =====
-- `createDailySessionController` of src/features/dailyLearning/dailySessionController.ts, which keeps
-- one lesson and saves its reviews. A save is cut at its await: `reviewCard` gives a promise, and
-- what that came to arrives later, after any other calls. A promise is known by its token.
use Prim.Native.String.{◌++◌ as join}
use flash_card.Prelude.{
  ℕ, ◌+◌, Bool, true, false, not, ◌&&◌, Option, none, some, List, [], String, length, same, ◌==◌,
  if◌then◌else◌,
}
use flash_card.Prelude.Text.{text_discrete}
use flash_card.Prelude.Keyed.{get, put, remove}
use flash_card.Lesson.State.{
  LessonPhase, introducing, answering, feedback, persisting, sync_pending, save_error, completed,
  Engine, TextPlatform, PendingLessonReview, LessonState, LessonAction, persisted,
  provisionally_persisted, persist_failed,
}
use flash_card.Lesson.Reducer.{reduce_lesson_state}

-- What `reviewCard` came to: an outcome, by its status where it is none of the two that count, or a
-- thrown value, with its message where it is an `Error`.
pub data ReviewOutcome : Type 0 where
  durably_queued published : ReviewOutcome
  unsaved : (status : String) → ReviewOutcome
  missing_outcome : ReviewOutcome
  rejected : (message : Option String) → ReviewOutcome

pub data PersistenceResult : Type 0 where
  advanced session_completed provisionally_advanced waits_for_sync : PersistenceResult
  stale_session not_ready : PersistenceResult
  failed : String → PersistenceResult

-- A call of `reviewCard` that waits: its promise, the session that it is of, and the review.
pub record Sent : Type 0 where
  pub token : ℕ
  pub generation : ℕ
  pub review : PendingLessonReview

-- What `rate` and `retry` give: a result, or the promise of a save, which is new or was there.
pub data Reply : Type 0 where
  resolved : PersistenceResult → Reply
  promised : (token : ℕ) → (call : Option Sent) → Reply

pub record Controller (Card Exercise Evaluation : Type 0) : Type 0 where
  pub session_generation : ℕ
  pub snapshot : Option (LessonState Card Exercise Evaluation)
  pub pending : List (String × ℕ)
  pub next_token : ℕ

abbrev pub is_sync_pending : LessonPhase → Bool
is_sync_pending sync_pending = true
is_sync_pending _ = false

abbrev pub is_completed : LessonPhase → Bool
is_completed completed = true
is_completed _ = false

abbrev pub same_phase : LessonPhase → LessonPhase → Bool
same_phase introducing introducing = true
same_phase answering answering = true
same_phase feedback feedback = true
same_phase persisting persisting = true
same_phase sync_pending sync_pending = true
same_phase save_error save_error = true
same_phase completed completed = true
same_phase _ _ = false

module _ {Card Exercise Answer Evaluation : Type 0}
    (engine : Engine Card Exercise Answer Evaluation) (platform : TextPlatform) where
  open platform use {trim, slice_512}

  abbrev State : Type 0
  State = LessonState Card Exercise Evaluation

  abbrev Daily : Type 0
  Daily = Controller Card Exercise Evaluation

  abbrev pub reduce : State → LessonAction Answer → State
  reduce = reduce_lesson_state engine platform

  -- `next === snapshot`, told from the step, the phase and the number of steps.
  unfoldable pub is_unchanged : State → State → Bool
  is_unchanged next s =
      next.index == s.index && same_phase next.phase s.phase && length next.steps == length s.steps

  unfoldable pub create_daily_session_controller : Daily
  create_daily_session_controller = record {
    session_generation = 0;
    snapshot = none;
    pending = [];
    next_token = 0;
  }

  abbrev pub publish : Daily → State → Daily
  publish c next = record c { snapshot = some next }

  -- `new Error(...)` for an outcome that is no save, and the message of what was thrown.
  unfoldable pub error_message : Option String → String
  error_message none = "Could not save the review result."
  error_message (some message) =
      if same text_discrete (trim message) ""
      then "Could not save the review result."
      else slice_512 message

  unfoldable pub not_saved : String → String
  not_saved status = join "The review was not saved (" (join status ").")

  unfoldable pub persist : Daily → PendingLessonReview → Daily × Reply
  persist c review = elim (get text_discrete review.operation_id c.pending) [
    | some token ↦ (c, promised token none)
    | none ↦ (
      record c {
        pending = put text_discrete review.operation_id c.next_token c.pending;
        next_token = c.next_token + 1;
      },
      promised c.next_token (
          some
            (record { token = c.next_token; generation = c.session_generation; review = review })),
    )
  ]

  -- The `finally` of a save.
  unfoldable pub forget : Daily → Sent → Daily
  forget c sent = elim (get text_discrete sent.review.operation_id c.pending) [
    | none ↦ c
    | some token ↦
        if token == sent.token
        then record c { pending = remove text_discrete sent.review.operation_id c.pending }
        else c
  ]

  unfoldable pub settled_result : PersistenceResult → PersistenceResult → Bool → PersistenceResult
  settled_result last more is_last = if is_last then last else more

  unfoldable pub apply_saved : Daily → State → State → PersistenceResult → Daily × PersistenceResult
  apply_saved c s next result =
      if is_unchanged next s then (c, stale_session) else (publish c next, result)

  unfoldable pub apply_failed :
      Daily → State → PendingLessonReview → Option String → Daily × PersistenceResult
  unfolding error_message
  apply_failed c s review message = (
    publish c (reduce s (persist_failed review.operation_id (error_message message))),
    failed (error_message message),
  )

  -- A save of the current session that has come to its end.
  unfoldable pub apply_outcome :
      Daily → State → PendingLessonReview → ReviewOutcome → Daily × PersistenceResult
  unfolding settled_result apply_saved apply_failed not_saved
  apply_outcome c s review durably_queued =
      let next = reduce s (provisionally_persisted review.operation_id) in
      apply_saved c s next
        (settled_result waits_for_sync provisionally_advanced (is_sync_pending next.phase))
  apply_outcome c s review published =
      let next = reduce s (persisted review.operation_id) in
      apply_saved c s next (settled_result session_completed advanced (is_completed next.phase))
  apply_outcome c s review (unsaved status) = apply_failed c s review (some (not_saved status))
  apply_outcome c s review missing_outcome =
      apply_failed c s review (some (not_saved "missing outcome"))
  apply_outcome c s review (rejected message) = apply_failed c s review message

  unfoldable pub receive_outcome : Daily → Sent → ReviewOutcome → Daily × PersistenceResult
  receive_outcome c sent outcome = elim c.snapshot [
    | none ↦ (c, stale_session)
    | some s ↦
        if not (sent.generation == c.session_generation)
        then (c, stale_session)
        else apply_outcome c s sent.review outcome
  ]

  -- A save from its `await` on.
  unfoldable pub settle_save : Daily → Sent → ReviewOutcome → Daily × PersistenceResult
  unfolding forget
  settle_save c sent outcome = let r = receive_outcome c sent outcome in (forget r.0 sent, r.1)
