-- ===== src/Lesson/Actions.antt =====
-- Each action of lessonReducer.ts against the invariant of a lesson.
use flash_card.Prelude.{
  ℕ, ◌+◌, ◌≡◌, inl, inr, refl, true, false, Option, none, [], ◌∷◌, ◌++◌, map, String, includes,
  IsUnique-append_one, splice_one, get_elem?, arith, Option-cases,
}
use flash_card.Prelude.Text.{text_discrete}
use flash_card.Lesson.State.{
  persisting, ReviewRating, Engine, TextPlatform, LessonStep, LessonState, IntroductionChoice,
  to_guided, to_independent_recall, LessonAction, request_guidance, submit, introduction_choice,
  continue_guided, rate, persisted, provisionally_persisted, persist_failed, retry_persist,
  current_step_for, advance_to,
}
use flash_card.Lesson.Reducer.{
  is_pending, next_recall_from, guidance_steps, insert_guidance, previous_introduction, guide_with,
  guide_step, reduce_request_guidance, choose_step, reduce_introduction_choice,
  reduce_continue_guided, reduce_submit, reduce_rate, reduce_persisted,
  reduce_provisionally_persisted, reduce_persist_failed, reduce_retry_persist, reduce_lesson_state,
}
use flash_card.Lesson.Invariant.{
  get_elem?-some, length-map, IsValid, phase_for_step-FitsPhase, advance_to-IsValid,
}

module _ {Card Exercise Answer Evaluation : Type 0}
    (engine : Engine Card Exercise Answer Evaluation) (platform : TextPlatform) where
  abbrev Valid : LessonState Card Exercise Evaluation → Type 0
  Valid = IsValid engine.card_id

  advance_to-Valid :
      (s : LessonState Card Exercise Evaluation) (next : ℕ) → Valid s → Valid (advance_to s next)
  unfolding advance_to
  advance_to-Valid s next v =
      advance_to-IsValid engine.card_id s next s.completed_operation_ids v.follows v.credited_once

  insert_guidance-Valid :
      (s : LessonState Card Exercise Evaluation) (card : Card)
      → Valid s
      → Valid (insert_guidance engine platform s card)
  unfolding insert_guidance advance_to
  insert_guidance-Valid s card v =
      let steps = splice_one s.index (guidance_steps engine platform card) s.steps in
      advance_to-IsValid engine.card_id
        (record s { steps = steps; exercises = map (λ x. x.exercise) steps }) s.index
        s.completed_operation_ids refl v.credited_once

  guide_with-Valid :
      (s : LessonState Card Exercise Evaluation) (step : LessonStep Card Exercise) (card : Card)
      → Valid s
      → Valid (guide_with engine platform s step card)
  unfolding guide_with
  guide_with-Valid s step card v =
      elim (Option-cases (previous_introduction engine platform s step)) [
        | inl p ↦ rw (p, guide_with) (insert_guidance-Valid s card v)
        | inr (previous, p) ↦ rw (p, guide_with) (advance_to-Valid s previous v)
      ]

  guide_step-Valid :
      (s : LessonState Card Exercise Evaluation) (step : LessonStep Card Exercise)
      → Valid s
      → Valid (guide_step engine platform s step)
  unfolding guide_step
  guide_step-Valid s step v = elim (Option-cases step.card) [
    | inl e ↦ rw (e, guide_step) v
    | inr (card, e) ↦ rw (e, guide_step) (ground (arith, guide_with-Valid s step card v))
  ]

  request_guidance-Valid :
      (s : LessonState Card Exercise Evaluation)
      → Valid s
      → Valid (reduce_request_guidance engine platform s)
  unfolding reduce_request_guidance
  request_guidance-Valid s v = elim (Option-cases (current_step_for s)) [
    | inl e ↦ rw (e, reduce_request_guidance) v
    | inr (step, e) ↦ rw (e, reduce_request_guidance) (guide_step-Valid s step v)
  ]

  choose_step-Valid :
      (s : LessonState Card Exercise Evaluation) (choice : IntroductionChoice)
      → Valid s
      → Valid (choose_step engine platform s choice)
  unfolding choose_step
  choose_step-Valid s to_guided v = advance_to-Valid s (s.index + 1) v
  choose_step-Valid s to_independent_recall v =
      elim (Option-cases (next_recall_from engine platform 0 s.index s.steps)) [
        | inl e ↦ rw (e, choose_step) v
        | inr (next, e) ↦ rw (e, choose_step) (advance_to-Valid s next v)
      ]

  introduction_choice-Valid :
      (s : LessonState Card Exercise Evaluation) (choice : IntroductionChoice)
      → Valid s
      → Valid (reduce_introduction_choice engine platform s choice)
  unfolding reduce_introduction_choice
  introduction_choice-Valid s choice v = ground (arith, choose_step-Valid s choice v)

  continue_guided-Valid :
      (s : LessonState Card Exercise Evaluation)
      → Valid s
      → Valid (reduce_continue_guided engine platform s)
  unfolding reduce_continue_guided
  continue_guided-Valid s v = ground (arith, advance_to-Valid s (s.index + 1) v)

  submit-Valid :
      (s : LessonState Card Exercise Evaluation) (answer : Answer)
      → Valid s
      → Valid (reduce_submit engine platform s answer)
  unfolding reduce_submit
  submit-Valid s answer v = ground arith

  rate-Valid :
      (s : LessonState Card Exercise Evaluation) (rating : ReviewRating) (operation_id : String)
      → Valid s
      → Valid (reduce_rate engine platform s rating operation_id)
  unfolding reduce_rate
  rate-Valid s rating operation_id v = ground arith

  waiting-new :
      (s : LessonState Card Exercise Evaluation) (operation_id : String)
      → Valid s
      → s.phase ≡ persisting
      → is_pending s.pending_review operation_id ≡ true
      → includes text_discrete s.completed_operation_ids operation_id ≡ false
  waiting-new s operation_id v p h = ground arith

  persisted-Valid :
      (s : LessonState Card Exercise Evaluation) (operation_id : String)
      → Valid s
      → Valid (reduce_persisted engine platform s operation_id)
  unfolding reduce_persisted
  persisted-Valid s operation_id v = ground (
    arith,
    waiting-new s operation_id v,
    IsUnique-append_one text_discrete s.completed_operation_ids operation_id v.credited_once,
    advance_to-IsValid engine.card_id s (s.index + 1)
        (s.completed_operation_ids ++ operation_id ∷ []) v.follows,
  )

  provisionally_persisted-Valid :
      (s : LessonState Card Exercise Evaluation) (operation_id : String)
      → Valid s
      → Valid (reduce_provisionally_persisted engine platform s operation_id)
  unfolding reduce_provisionally_persisted
  provisionally_persisted-Valid s operation_id v =
      let nothing : Option Evaluation = none in
      ground (
        arith,
        length-map (λ (x : LessonStep Card Exercise). x.exercise) s.steps,
        get_elem?-some s.steps (s.index + 1),
        phase_for_step-FitsPhase engine.card_id (get_elem? s.steps (s.index + 1)) nothing
            s.completed_operation_ids,
      )

  persist_failed-Valid :
      (s : LessonState Card Exercise Evaluation) (operation_id message : String)
      → Valid s
      → Valid (reduce_persist_failed engine platform s operation_id message)
  unfolding reduce_persist_failed
  persist_failed-Valid s operation_id message v = ground arith

  retry_persist-Valid :
      (s : LessonState Card Exercise Evaluation)
      → Valid s
      → Valid (reduce_retry_persist engine platform s)
  unfolding reduce_retry_persist
  retry_persist-Valid s v = ground arith

  -- Every action keeps the invariant, whatever the state it meets: the current step, the waiting
  -- review and the feedback fit the phase, the exercises are those of the steps, and no operation is
  -- credited twice.
  pub reduce_lesson_state-IsValid :
      (s : LessonState Card Exercise Evaluation) (action : LessonAction Answer)
      → IsValid engine.card_id s
      → IsValid engine.card_id (reduce_lesson_state engine platform s action)
  unfolding reduce_lesson_state
  reduce_lesson_state-IsValid s request_guidance v = request_guidance-Valid s v
  reduce_lesson_state-IsValid s (introduction_choice choice) v =
      introduction_choice-Valid s choice v
  reduce_lesson_state-IsValid s continue_guided v = continue_guided-Valid s v
  reduce_lesson_state-IsValid s (submit answer) v = submit-Valid s answer v
  reduce_lesson_state-IsValid s (rate rating operation_id) v = rate-Valid s rating operation_id v
  reduce_lesson_state-IsValid s (persisted operation_id) v = persisted-Valid s operation_id v
  reduce_lesson_state-IsValid s (provisionally_persisted operation_id) v =
      provisionally_persisted-Valid s operation_id v
  reduce_lesson_state-IsValid s (persist_failed operation_id message) v =
      persist_failed-Valid s operation_id message v
  reduce_lesson_state-IsValid s retry_persist v = retry_persist-Valid s v
