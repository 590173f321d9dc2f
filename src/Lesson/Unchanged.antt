-- ===== src/Lesson/Unchanged.antt =====
-- `next === snapshot` of dailySessionController.ts against what the reducer gives.
use flash_card.Prelude.{
  ℕ, zero, suc, ◌+◌, ◌≡◌, ◌<◌, inl, inr, Bool, true, ◌&&◌, some, List, [], ◌∷◌, String,
  Option-cases, same, find_index_from, find_index_from-lt, length-splice_one, get_elem?, arith,
}
use flash_card.Prelude.Text.{text_discrete}
use flash_card.Lesson.State.{
  Engine, TextPlatform, LessonState, LessonStep, LessonAction, request_guidance, submit,
  introduction_choice, continue_guided, rate, retry_persist, persisted, persist_failed,
  provisionally_persisted, current_step_for, is_introduction, is_scored, advance_to, to_guided,
  to_independent_recall, IntroductionChoice,
}
use flash_card.Lesson.Reducer.{
  reduce_request_guidance, guide_step, guide_with, insert_guidance, guidance_steps,
  previous_introduction, next_recall_from, reduce_introduction_choice, choose_step,
  reduce_continue_guided, reduce_submit, reduce_rate, reduce_persisted,
  reduce_provisionally_persisted, reduce_persist_failed, reduce_retry_persist, reduce_lesson_state,
}
use flash_card.Lesson.Invariant.{get_elem?-lt}
use flash_card.Lesson.Controller.{is_unchanged}

-- What `findIndex` finds satisfies the test.
find_index_from-holds {ℓ} :
    {A : Type ℓ} (p : A → Bool) (k j : ℕ) (xs : List A) (x : A)
    → find_index_from k p xs ≡ some (k + j)
    → get_elem? xs j ≡ some x
    → p x ≡ true
find_index_from-holds p k j [] x h e = absurd (ground arith)
find_index_from-holds p k zero (y ∷ xs) x h e = ground (arith, find_index_from-lt (suc k) p xs k)
find_index_from-holds p k (suc j) (y ∷ xs) x h e =
    ground (arith, find_index_from-holds p (suc k) j xs x)

module _ {Card Exercise Answer Evaluation : Type 0}
    (engine : Engine Card Exercise Answer Evaluation) (platform : TextPlatform) where
  abbrev State : Type 0
  State = LessonState Card Exercise Evaluation

  next_recall_from-gt :
      (i index : ℕ) (steps : List (LessonStep Card Exercise)) (next : ℕ)
      → next_recall_from engine platform i index steps ≡ some next
      → index < next
  unfolding next_recall_from
  next_recall_from-gt i index [] next h = absurd (ground arith)
  next_recall_from-gt i index (c ∷ steps) next h =
      ground (arith, next_recall_from-gt (suc i) index steps next)

  -- no phase that `advanceTo` gives is 'persisting'
  choose-unchanged :
      (s : State) (choice : IntroductionChoice)
      → is_unchanged engine platform (reduce_introduction_choice engine platform s choice) s ≡ true
      → reduce_introduction_choice engine platform s choice ≡ s
  unfolding reduce_introduction_choice choose_step is_unchanged advance_to
  choose-unchanged s to_guided h = ground arith
  choose-unchanged s to_independent_recall h =
      elim (Option-cases (next_recall_from engine platform 0 s.index s.steps)) [
        | inl none_left ↦ ground arith
        | inr (next, e) ↦ ground (arith, next_recall_from-gt 0 s.index s.steps next e)
      ]

  persisted-unchanged :
      (s : State) (id : String)
      → is_unchanged engine platform (reduce_persisted engine platform s id) s ≡ true
      → reduce_persisted engine platform s id ≡ s
  unfolding reduce_persisted is_unchanged advance_to
  persisted-unchanged s id h = ground arith

  provisionally-unchanged :
      (s : State) (id : String)
      → is_unchanged engine platform (reduce_provisionally_persisted engine platform s id) s ≡ true
      → reduce_provisionally_persisted engine platform s id ≡ s
  unfolding reduce_provisionally_persisted is_unchanged
  provisionally-unchanged s id h = ground arith

  abbrev starts : LessonStep Card Exercise → LessonStep Card Exercise → Bool
  starts step c =
      is_introduction c.stage
      && same text_discrete (engine.card_id c.exercise) (engine.card_id step.exercise)

  guide_with-unchanged :
      (s : State) (step : LessonStep Card Exercise) (card : Card)
      → current_step_for s ≡ some step
      → is_scored step.stage ≡ true
      → is_unchanged engine platform (guide_with engine platform s step card) s ≡ true
      → guide_with engine platform s step card ≡ s
  unfolding guide_with insert_guidance guidance_steps previous_introduction is_unchanged advance_to
  guide_with-unchanged s step card here scored h =
      elim (Option-cases (previous_introduction engine platform s step)) [
        | inl none_yet ↦ ground (
          arith,
          get_elem?-lt s.steps s.index here,
          length-splice_one s.index (guidance_steps engine platform card) s.steps,
        )
        | inr (previous, e) ↦
            ground (arith, find_index_from-holds (starts step) 0 s.index s.steps step)
      ]

  guidance-unchanged :
      (s : State)
      → is_unchanged engine platform (reduce_request_guidance engine platform s) s ≡ true
      → reduce_request_guidance engine platform s ≡ s
  unfolding reduce_request_guidance guide_step
  guidance-unchanged s h = elim (Option-cases (current_step_for s)) [
    | inl no_step ↦ ground arith
    | inr (step, e) ↦ elim (Option-cases step.card) [
      | inl no_card ↦ ground arith
      | inr (card, f) ↦ ground (arith, guide_with-unchanged s step card e)
    ]
  ]

  -- Wherever what the reducer gives stands at the same step, in the same phase and with as many steps
  -- as the lesson before, for any lesson and any action, it is that lesson: the controller's test
  -- `next === snapshot`, told from these three, never takes a changed lesson for an unchanged one.
  pub reduce-unchanged :
      (s : State) (action : LessonAction Answer)
      → is_unchanged engine platform (reduce_lesson_state engine platform s action) s ≡ true
      → reduce_lesson_state engine platform s action ≡ s
  unfolding reduce_lesson_state
  reduce-unchanged s request_guidance h = guidance-unchanged s h
  reduce-unchanged s (introduction_choice choice) h = choose-unchanged s choice h
  reduce-unchanged s continue_guided h =
      unfold reduce_continue_guided is_unchanged advance_to in ground arith
  reduce-unchanged s (submit answer) h = unfold reduce_submit is_unchanged in ground arith
  reduce-unchanged s (rate rating id) h = unfold reduce_rate is_unchanged in ground arith
  reduce-unchanged s (persisted id) h = persisted-unchanged s id h
  reduce-unchanged s (provisionally_persisted id) h = provisionally-unchanged s id h
  reduce-unchanged s (persist_failed id message) h =
      unfold reduce_persist_failed is_unchanged in ground arith
  reduce-unchanged s retry_persist h = unfold reduce_retry_persist is_unchanged in ground arith
