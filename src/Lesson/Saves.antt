-- ===== src/Lesson/Saves.antt =====
-- The parts of the calls of `createDailySessionController`, and the lesson that they leave.
use flash_card.Prelude.{
  ◌≡◌, inl, inr, sym, ◌∙◌, Option, some, List, String, Option-cases, Outcome-cases, arith,
}
use flash_card.Prelude.Text.{text_discrete}
use flash_card.Prelude.Keyed.{get}
use flash_card.Lesson.State.{
  Engine, TextPlatform, PendingLessonReview, LessonState, LessonAction, LessonInput,
  create_lesson_state, persisted, persist_failed, provisionally_persisted,
}
use flash_card.Lesson.Invariant.{IsValid}
use flash_card.Lesson.Actions.{reduce_lesson_state-IsValid}
use flash_card.Lesson.Runs.{create-IsValid}
use flash_card.Lesson.Controller.{
  ReviewOutcome, durably_queued, published, unsaved, missing_outcome, rejected, Sent, Controller,
  persist, forget, apply_saved, apply_failed, apply_outcome, receive_outcome, settle_save,
  error_message, not_saved,
}
use flash_card.Lesson.Calls.{start, started, apply_action}

module _ {Card Exercise Answer Evaluation : Type 0}
    (engine : Engine Card Exercise Answer Evaluation) (platform : TextPlatform) where
  abbrev State : Type 0
  State = LessonState Card Exercise Evaluation

  abbrev Daily : Type 0
  Daily = Controller Card Exercise Evaluation

  -- There is no lesson, or one that satisfies the lesson's invariant.
  abbrev pub HasValidLesson : Daily → Type 0
  HasValidLesson c = (s : State) → c.snapshot ≡ some s → IsValid engine.card_id s

  persist-snapshot :
      (c : Daily) (review : PendingLessonReview)
      → (persist engine platform c review).0.snapshot ≡ c.snapshot
  unfolding persist
  persist-snapshot c review =
      elim (Option-cases (get text_discrete review.operation_id c.pending)) [
        | inl free ↦ ground arith
        | inr (token, there) ↦ ground arith
      ]

  pub forget-snapshot :
      (c : Daily) (sent : Sent) → (forget engine platform c sent).snapshot ≡ c.snapshot
  unfolding forget
  forget-snapshot c sent =
      elim (Option-cases (get text_discrete sent.review.operation_id c.pending)) [
        | inl gone ↦ ground arith
        | inr (token, there) ↦ ground arith
      ]

  pub apply_action-HasValidLesson :
      (c : Daily) (s : State) (action : LessonAction Answer)
      → HasValidLesson c
      → c.snapshot ≡ some s
      → HasValidLesson (apply_action engine platform c s action).0
  unfolding apply_action
  apply_action-HasValidLesson c s action v h =
      ground (arith, reduce_lesson_state-IsValid engine platform s action (v s h))

  pub apply_failed-HasValidLesson :
      (c : Daily) (s : State) (review : PendingLessonReview) (message : Option String)
      → HasValidLesson c
      → c.snapshot ≡ some s
      → HasValidLesson (apply_failed engine platform c s review message).0
  unfolding apply_failed
  apply_failed-HasValidLesson c s review message v h =
      let text = error_message engine platform message in
      let failing : LessonAction Answer = persist_failed review.operation_id text in
      ground (arith, reduce_lesson_state-IsValid engine platform s failing (v s h))

  pub apply_outcome-HasValidLesson :
      (c : Daily) (s : State) (review : PendingLessonReview) (outcome : ReviewOutcome)
      → HasValidLesson c
      → c.snapshot ≡ some s
      → HasValidLesson (apply_outcome engine platform c s review outcome).0
  unfolding apply_outcome apply_saved
  apply_outcome-HasValidLesson c s review durably_queued v h =
      let keeps = reduce_lesson_state-IsValid engine platform s in
      ground (arith, keeps (provisionally_persisted review.operation_id) (v s h))
  apply_outcome-HasValidLesson c s review published v h =
      let keeps = reduce_lesson_state-IsValid engine platform s in
      ground (arith, keeps (persisted review.operation_id) (v s h))
  apply_outcome-HasValidLesson c s review (unsaved status) v h =
      apply_failed-HasValidLesson c s review (some (not_saved engine platform status)) v h
  apply_outcome-HasValidLesson c s review missing_outcome v h =
      apply_failed-HasValidLesson c s review (some (not_saved engine platform "missing outcome")) v
        h
  apply_outcome-HasValidLesson c s review (rejected message) v h =
      apply_failed-HasValidLesson c s review message v h

  pub receive-HasValidLesson :
      (c : Daily) (sent : Sent) (outcome : ReviewOutcome)
      → HasValidLesson c
      → HasValidLesson (receive_outcome engine platform c sent outcome).0
  unfolding receive_outcome
  receive-HasValidLesson c sent outcome v = elim (Option-cases c.snapshot) [
    | inl no_lesson ↦ ground arith
    | inr (s, e) ↦ ground (arith, apply_outcome-HasValidLesson c s sent.review outcome v e)
  ]

  pub settle-HasValidLesson :
      (c : Daily) (sent : Sent) (outcome : ReviewOutcome)
      → HasValidLesson c
      → HasValidLesson (settle_save engine platform c sent outcome).0
  unfolding settle_save
  settle-HasValidLesson c sent outcome v s h =
      receive-HasValidLesson c sent outcome v s
        (sym (forget-snapshot (receive_outcome engine platform c sent outcome).0 sent) ∙ h)

  pub persist-HasValidLesson :
      (c : Daily) (review : PendingLessonReview)
      → HasValidLesson c
      → HasValidLesson (persist engine platform c review).0
  persist-HasValidLesson c review v s h = v s (sym (persist-snapshot c review) ∙ h)

  pub started-HasValidLesson :
      (c : Daily) (exercises : List (LessonInput Card Exercise))
      → HasValidLesson c
      → HasValidLesson (started engine platform c exercises)
  unfolding started start
  started-HasValidLesson c exercises v =
      elim (Outcome-cases (create_lesson_state engine.card_id Evaluation exercises)) [
        | inl (e, h) ↦ ground arith
        | inr (s, h) ↦ ground (arith, create-IsValid engine platform exercises h)
      ]
