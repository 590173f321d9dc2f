-- ===== src/Lesson/Runs.antt =====
-- Lists of actions on a lesson of lessonReducer.ts, from its creation on.
use flash_card.Prelude.{
  ◌≡◌, ◌⊎◌, sym, subst, inl, inr, refl, true, ◌&&◌, Bool-cases, Option, none, List, [], ◌∷◌, ◌++◌,
  String, ok, get_elem?, arith,
}
use flash_card.Lesson.State.{
  persisting, sync_pending, completed, Engine, TextPlatform, LessonState, LessonInput, LessonAction,
  request_guidance, submit, introduction_choice, continue_guided, rate, persisted,
  provisionally_persisted, persist_failed, retry_persist, normalize_steps, create_lesson_state,
  advance_to,
}
use flash_card.Lesson.Reducer.{
  is_pending, is_persisting, reduce_request_guidance, guide_step, reduce_introduction_choice,
  reduce_continue_guided, reduce_submit, reduce_rate, reduce_persisted,
  reduce_provisionally_persisted, reduce_persist_failed, reduce_retry_persist, reduce_lesson_state,
  guide_with, insert_guidance, choose_step,
}
use flash_card.Lesson.Invariant.{IsValid, phase_for_step-FitsPhase, get_elem?-some}
use flash_card.Lesson.Actions.{reduce_lesson_state-IsValid}

module _ {Card Exercise Answer Evaluation : Type 0}
    (engine : Engine Card Exercise Answer Evaluation) (platform : TextPlatform) where
  abbrev reduce :
      LessonState Card Exercise Evaluation
      → LessonAction Answer
      → LessonState Card Exercise Evaluation
  reduce = reduce_lesson_state engine platform

  unfoldable pub run :
      LessonState Card Exercise Evaluation
      → List (LessonAction Answer)
      → LessonState Card Exercise Evaluation
  run s [] = s
  run s (action ∷ actions) = run (reduce s action) actions

  pub create-IsValid :
      (input : List (LessonInput Card Exercise)) {s : LessonState Card Exercise Evaluation}
      → create_lesson_state engine.card_id Evaluation input ≡ ok s
      → IsValid engine.card_id s
  unfolding create_lesson_state
  create-IsValid input h =
      let steps = normalize_steps input in
      let nothing : Option Evaluation = none in
      ground (
        arith,
        get_elem?-some steps 0,
        phase_for_step-FitsPhase engine.card_id (get_elem? steps 0) nothing [],
      )

  run-IsValid :
      (s : LessonState Card Exercise Evaluation) (actions : List (LessonAction Answer))
      → IsValid engine.card_id s
      → IsValid engine.card_id (run s actions)
  unfolding run
  run-IsValid s [] v = v
  run-IsValid s (action ∷ actions) v =
      run-IsValid (reduce s action) actions (reduce_lesson_state-IsValid engine platform s action v)

  -- Every lesson that `createLessonState` gives satisfies the invariant after any actions at all.
  pub create_run-IsValid :
      (input : List (LessonInput Card Exercise)) (actions : List (LessonAction Answer))
      {s : LessonState Card Exercise Evaluation}
      → create_lesson_state engine.card_id Evaluation input ≡ ok s
      → IsValid engine.card_id (run s actions)
  create_run-IsValid input actions {s} h = run-IsValid s actions (create-IsValid input h)

  abbrev pub IsFinished : LessonState Card Exercise Evaluation → Type 0
  IsFinished s = (s.phase ≡ completed) ⊎ (s.phase ≡ sync_pending)

  finished_step :
      (s : LessonState Card Exercise Evaluation) (action : LessonAction Answer)
      → IsFinished s
      → reduce s action ≡ s
  unfolding reduce_lesson_state
  finished_step s request_guidance f = unfold reduce_request_guidance guide_step in ground arith
  finished_step s (introduction_choice choice) f = unfold reduce_introduction_choice in ground arith
  finished_step s continue_guided f = unfold reduce_continue_guided in ground arith
  finished_step s (submit answer) f = unfold reduce_submit in ground arith
  finished_step s (rate rating operation_id) f = unfold reduce_rate in ground arith
  finished_step s (persisted operation_id) f = unfold reduce_persisted in ground arith
  finished_step s (provisionally_persisted operation_id) f =
      unfold reduce_provisionally_persisted in ground arith
  finished_step s (persist_failed operation_id message) f =
      unfold reduce_persist_failed in ground arith
  finished_step s retry_persist f = unfold reduce_retry_persist in ground arith

  -- A lesson that is completed, or that ends with its last review waiting for the cloud, changes no
  -- more, whatever arrives late.
  pub finished_absorbs :
      (s : LessonState Card Exercise Evaluation) (actions : List (LessonAction Answer))
      → IsFinished s
      → run s actions ≡ s
  unfolding run
  finished_absorbs s [] f = refl
  finished_absorbs s (action ∷ actions) f =
      let e = finished_step s action f in
      subst (λ x. run x actions ≡ s) (sym e) (finished_absorbs s actions f)

  -- A review whose save failed and is tried again ends as if the save had not failed: the credited
  -- operations, the next step and all else are the same.
  pub retry-persisted :
      (s : LessonState Card Exercise Evaluation) (operation_id message : String)
      → s.phase ≡ persisting
      → is_pending s.pending_review operation_id ≡ true
      → run s (persist_failed operation_id message ∷ retry_persist ∷ persisted operation_id ∷ [])
        ≡ run s (persisted operation_id ∷ [])
  unfolding run reduce_lesson_state reduce_persist_failed reduce_retry_persist reduce_persisted
      advance_to
  retry-persisted s operation_id message p h = ground arith

  -- An operation is credited only by the message that its own review was persisted, while that
  -- review waits; every other action leaves the credited operations as they are.
  pub credited_by_persisted :
      (s : LessonState Card Exercise Evaluation) (action : LessonAction Answer)
      → ((reduce s action).completed_operation_ids ≡ s.completed_operation_ids)
        ⊎ ((operation_id : String) × (action ≡ persisted operation_id)
            × (s.phase ≡ persisting)
            × (is_pending s.pending_review operation_id ≡ true)
            × ((reduce s action).completed_operation_ids
                ≡ s.completed_operation_ids ++ operation_id ∷ []))
  unfolding reduce_lesson_state advance_to
  credited_by_persisted s request_guidance =
      inl (unfold reduce_request_guidance guide_step guide_with insert_guidance in ground arith)
  credited_by_persisted s (introduction_choice choice) =
      inl (unfold reduce_introduction_choice choose_step in ground arith)
  credited_by_persisted s continue_guided = inl (unfold reduce_continue_guided in ground arith)
  credited_by_persisted s (submit answer) = inl (unfold reduce_submit in ground arith)
  credited_by_persisted s (rate rating operation_id) = inl (unfold reduce_rate in ground arith)
  credited_by_persisted s (persisted operation_id) =
      elim (Bool-cases (is_persisting s.phase && is_pending s.pending_review operation_id)) [
        | inl waits ↦ inr (
          operation_id,
          refl,
          ground arith,
          ground arith,
          unfold reduce_persisted in ground arith,
        )
        | inr other ↦ inl (unfold reduce_persisted in ground arith)
      ]
  credited_by_persisted s (provisionally_persisted operation_id) =
      inl (unfold reduce_provisionally_persisted in ground arith)
  credited_by_persisted s (persist_failed operation_id message) =
      inl (unfold reduce_persist_failed in ground arith)
  credited_by_persisted s retry_persist = inl (unfold reduce_retry_persist in ground arith)
