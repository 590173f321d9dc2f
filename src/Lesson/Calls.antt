-- ===== src/Lesson/Calls.antt =====
-- The calls of `createDailySessionController`, and lists of them.
use flash_card.Prelude.{
  ◌+◌, Bool, true, false, not, ◌||◌, none, some, List, [], ◌∷◌, String, Outcome, ok, throw, same,
  if◌then◌else◌,
}
use flash_card.Prelude.Text.{text_discrete}
use flash_card.Lesson.State.{
  ReviewRating, Engine, TextPlatform, LessonState, IntroductionChoice, LessonAction,
  request_guidance, submit, introduction_choice, continue_guided, rate, retry_persist, LessonError,
  LessonInput, create_lesson_state,
}
use flash_card.Lesson.Reducer.{
  is_introducing, is_answering, is_feedback, is_persisting, is_save_error,
}
use flash_card.Lesson.Controller.{
  ReviewOutcome, not_ready, Sent, Reply, resolved, Controller, reduce, is_unchanged, publish,
  persist, settle_save,
}

-- The calls; `rate_called` carries what `createOperationId` gives, and `save_ended` is the end of a
-- wait.
pub data Call (Card Exercise Answer : Type 0) : Type 0 where
  start_called : List (LessonInput Card Exercise) → Call Card Exercise Answer
  introduction_chosen : IntroductionChoice → Call Card Exercise Answer
  guidance_requested guided_continued : Call Card Exercise Answer
  answer_submitted : Answer → Call Card Exercise Answer
  rate_called : ReviewRating → (operation_id : String) → Call Card Exercise Answer
  retry_called close_called : Call Card Exercise Answer
  save_ended : Sent → ReviewOutcome → Call Card Exercise Answer

module _ {Card Exercise Answer Evaluation : Type 0}
    (engine : Engine Card Exercise Answer Evaluation) (platform : TextPlatform) where
  open platform use {trim}

  abbrev State : Type 0
  State = LessonState Card Exercise Evaluation

  abbrev Daily : Type 0
  Daily = Controller Card Exercise Evaluation

  abbrev renewed : Daily → Daily
  renewed c = record c { session_generation = c.session_generation + 1; pending = [] }

  unfoldable pub start : Daily → List (LessonInput Card Exercise) → Outcome LessonError Daily
  start c exercises = elim (create_lesson_state engine.card_id Evaluation exercises) [
    | ok s ↦ ok (publish engine platform (renewed c) s)
    | throw e ↦ throw e
  ]

  -- The controller behind `start`, which also has a new generation where `start` throws.
  unfoldable pub started : Daily → List (LessonInput Card Exercise) → Daily
  unfolding start
  started c exercises = elim (start c exercises) [ ok next ↦ next | throw e ↦ renewed c ]

  -- `reduce`, `next === snapshot` and `publish`, as the calls below have them.
  unfoldable pub apply_action : Daily → State → LessonAction Answer → Daily × Bool
  apply_action c s action =
      let next = reduce engine platform s action in
      if is_unchanged engine platform next s
      then (c, false)
      else (publish engine platform c next, true)

  unfoldable pub choose_introduction : Daily → IntroductionChoice → Daily × Bool
  choose_introduction c choice = elim c.snapshot [
    | none ↦ (c, false)
    | some s ↦
        if not (is_introducing s.phase)
        then (c, false)
        else apply_action c s (introduction_choice choice)
  ]

  unfoldable pub ask_guidance : Daily → Daily × Bool
  ask_guidance c = elim c.snapshot [
    | none ↦ (c, false)
    | some s ↦ apply_action c s request_guidance
  ]

  unfoldable pub continue_lesson : Daily → Daily × Bool
  continue_lesson c = elim c.snapshot [
    | none ↦ (c, false)
    | some s ↦ apply_action c s continue_guided
  ]

  unfoldable pub submit_answer : Daily → Answer → Daily × Bool
  submit_answer c answer = elim c.snapshot [
    | none ↦ (c, false)
    | some s ↦ if not (is_answering s.phase) then (c, false) else apply_action c s (submit answer)
  ]

  -- `rate` in the phase 'feedback'.
  unfoldable pub rate_feedback : Daily → State → ReviewRating → String → Daily × Reply
  rate_feedback c s rating operation_id =
      let next = reduce engine platform s (rate rating operation_id) in
      elim next.pending_review [
        | none ↦ (c, resolved not_ready)
        | some review ↦ persist engine platform (publish engine platform c next) review
      ]

  unfoldable pub rate_new : Daily → State → ReviewRating → String → Daily × Reply
  rate_new c s rating created =
      if not (is_feedback s.phase) || same text_discrete (trim created) ""
      then (c, resolved not_ready)
      else rate_feedback c s rating (trim created)

  unfoldable pub rate_card : Daily → ReviewRating → (created : String) → Daily × Reply
  rate_card c rating created = elim c.snapshot [
    | none ↦ (c, resolved not_ready)
    | some s ↦ elim s.pending_review [
      | none ↦ rate_new c s rating created
      | some review ↦
          if is_persisting s.phase
          then persist engine platform c review
          else rate_new c s rating created
    ]
  ]

  unfoldable pub retry : Daily → Daily × Reply
  retry c = elim c.snapshot [
    | none ↦ (c, resolved not_ready)
    | some s ↦ elim s.pending_review [
      | none ↦ (c, resolved not_ready)
      | some review ↦
          if not (is_save_error s.phase)
          then (c, resolved not_ready)
          else persist engine platform
              (publish engine platform c (reduce engine platform s retry_persist)) review
    ]
  ]

  unfoldable pub close : Daily → Daily
  close c = record c {
    session_generation = c.session_generation + 1;
    pending = [];
    snapshot = none;
  }

  unfoldable pub call : Daily → Call Card Exercise Answer → Daily
  call c (start_called exercises) = started c exercises
  call c (introduction_chosen choice) = (choose_introduction c choice).0
  call c guidance_requested = (ask_guidance c).0
  call c guided_continued = (continue_lesson c).0
  call c (answer_submitted answer) = (submit_answer c answer).0
  call c (rate_called rating created) = (rate_card c rating created).0
  call c retry_called = (retry c).0
  call c close_called = close c
  call c (save_ended sent outcome) = (settle_save engine platform c sent outcome).0

  unfoldable pub calls : Daily → List (Call Card Exercise Answer) → Daily
  calls c [] = c
  calls c (first ∷ rest) = calls (call c first) rest
