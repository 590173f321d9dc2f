-- ===== src/Lesson/Sessions.antt =====
-- Lists of calls of `createDailySessionController`, and the lesson that they leave.
use flash_card.Prelude.{◌≡◌, inl, inr, some, List, [], ◌∷◌, String, Option-cases, arith}
use flash_card.Lesson.State.{
  ReviewRating, Engine, TextPlatform, LessonState, LessonAction, IntroductionChoice,
  request_guidance, submit, introduction_choice, continue_guided, rate, retry_persist,
}
use flash_card.Lesson.Actions.{reduce_lesson_state-IsValid}
use flash_card.Lesson.Controller.{Controller, create_daily_session_controller, reduce}
use flash_card.Lesson.Calls.{
  Call, start_called, introduction_chosen, guidance_requested, guided_continued, answer_submitted,
  rate_called, retry_called, close_called, save_ended, choose_introduction, ask_guidance,
  continue_lesson, submit_answer, rate_feedback, rate_new, rate_card, retry, close, call, calls,
}
use flash_card.Lesson.Saves.{
  HasValidLesson, persist-HasValidLesson, settle-HasValidLesson, apply_action-HasValidLesson,
  started-HasValidLesson,
}

module _ {Card Exercise Answer Evaluation : Type 0}
    (engine : Engine Card Exercise Answer Evaluation) (platform : TextPlatform) where
  abbrev State : Type 0
  State = LessonState Card Exercise Evaluation

  abbrev Daily : Type 0
  Daily = Controller Card Exercise Evaluation

  abbrev Valid : Daily → Type 0
  Valid = HasValidLesson engine platform

  choose-Valid :
      (c : Daily) (choice : IntroductionChoice)
      → Valid c
      → Valid (choose_introduction engine platform c choice).0
  unfolding choose_introduction
  choose-Valid c choice v = elim (Option-cases c.snapshot) [
    | inl no_lesson ↦ ground arith
    | inr (s, e) ↦
        ground
          (arith, apply_action-HasValidLesson engine platform c s (introduction_choice choice) v e)
  ]

  guidance-Valid : (c : Daily) → Valid c → Valid (ask_guidance engine platform c).0
  unfolding ask_guidance
  guidance-Valid c v = elim (Option-cases c.snapshot) [
    | inl no_lesson ↦ ground arith
    | inr (s, e) ↦
        ground (arith, apply_action-HasValidLesson engine platform c s request_guidance v e)
  ]

  continue-Valid : (c : Daily) → Valid c → Valid (continue_lesson engine platform c).0
  unfolding continue_lesson
  continue-Valid c v = elim (Option-cases c.snapshot) [
    | inl no_lesson ↦ ground arith
    | inr (s, e) ↦
        ground (arith, apply_action-HasValidLesson engine platform c s continue_guided v e)
  ]

  submit-Valid :
      (c : Daily) (answer : Answer) → Valid c → Valid (submit_answer engine platform c answer).0
  unfolding submit_answer
  submit-Valid c answer v = elim (Option-cases c.snapshot) [
    | inl no_lesson ↦ ground arith
    | inr (s, e) ↦
        ground (arith, apply_action-HasValidLesson engine platform c s (submit answer) v e)
  ]

  rate_new-Valid :
      (c : Daily) (s : State) (rating : ReviewRating) (created : String)
      → Valid c
      → c.snapshot ≡ some s
      → Valid (rate_new engine platform c s rating created).0
  unfolding rate_new rate_feedback
  rate_new-Valid c s rating created v h =
      let act : LessonAction Answer = rate rating (platform.trim created) in
      let next = reduce engine platform s act in
      elim (Option-cases next.pending_review) [
        | inl none_yet ↦ ground arith
        | inr (review, e) ↦ ground (
          arith,
          persist-HasValidLesson engine platform (record c { snapshot = some next }) review,
          reduce_lesson_state-IsValid engine platform s act (v s h),
        )
      ]

  rate_card-Valid :
      (c : Daily) (rating : ReviewRating) (created : String)
      → Valid c
      → Valid (rate_card engine platform c rating created).0
  unfolding rate_card
  rate_card-Valid c rating created v = elim (Option-cases c.snapshot) [
    | inl no_lesson ↦ ground arith
    | inr (s, e) ↦ elim (Option-cases s.pending_review) [
      | inl no_review ↦ ground (arith, rate_new-Valid c s rating created v e)
      | inr (review, f) ↦ ground (
        arith,
        rate_new-Valid c s rating created v e,
        persist-HasValidLesson engine platform c review v,
      )
    ]
  ]

  retry-Valid : (c : Daily) → Valid c → Valid (retry engine platform c).0
  unfolding retry
  retry-Valid c v = elim (Option-cases c.snapshot) [
    | inl no_lesson ↦ ground arith
    | inr (s, e) ↦ elim (Option-cases s.pending_review) [
      | inl no_review ↦ ground arith
      | inr (review, f) ↦
          let next = reduce engine platform s retry_persist in
          ground (
            arith,
            persist-HasValidLesson engine platform (record c { snapshot = some next }) review,
            reduce_lesson_state-IsValid engine platform s retry_persist (v s e),
          )
    ]
  ]

  call-Valid :
      (c : Daily) (one : Call Card Exercise Answer) → Valid c → Valid (call engine platform c one)
  unfolding call close
  call-Valid c (start_called exercises) v = started-HasValidLesson engine platform c exercises v
  call-Valid c (introduction_chosen choice) v = choose-Valid c choice v
  call-Valid c guidance_requested v = guidance-Valid c v
  call-Valid c guided_continued v = continue-Valid c v
  call-Valid c (answer_submitted answer) v = submit-Valid c answer v
  call-Valid c (rate_called rating created) v = rate_card-Valid c rating created v
  call-Valid c retry_called v = retry-Valid c v
  call-Valid c close_called v = ground arith
  call-Valid c (save_ended sent outcome) v = settle-HasValidLesson engine platform c sent outcome v

  calls-Valid :
      (c : Daily) (list : List (Call Card Exercise Answer))
      → Valid c
      → Valid (calls engine platform c list)
  unfolding calls
  calls-Valid c [] v = v
  calls-Valid c (first ∷ rest) v =
      calls-Valid (call engine platform c first) rest (call-Valid c first v)

  -- After any calls of a new controller, and any ends of saves in any order, there is no lesson or
  -- the lesson satisfies the lesson's invariant.
  pub daily_calls-HasValidLesson :
      (list : List (Call Card Exercise Answer))
      → HasValidLesson engine platform
          (calls engine platform (create_daily_session_controller engine platform) list)
  unfolding create_daily_session_controller
  daily_calls-HasValidLesson list =
      calls-Valid (create_daily_session_controller engine platform) list (ground arith)
