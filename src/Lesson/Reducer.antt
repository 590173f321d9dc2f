-- ===== src/Lesson/Reducer.antt =====
-- `reduceLessonState` of lessonReducer.ts: one function for each action, and the dispatch.
use flash_card.Prelude.{
  ℕ, suc, ◌+◌, Bool, true, false, not, ◌&&◌, ◌||◌, Option, none, some, List, [], ◌∷◌, ◌++◌, map,
  String, length, leb, ltb, same, includes, find_index_from, splice_one, get_elem?, if◌then◌else◌,
}
use flash_card.Prelude.Text.{text_discrete}
use flash_card.Lesson.State.{
  LessonStage, introduction, guided, independent_recall, LessonPhase, introducing, answering,
  feedback, persisting, sync_pending, save_error, ReviewRating, Engine, TextPlatform, LessonStep,
  PendingLessonReview, LessonState, IntroductionChoice, to_guided, to_independent_recall,
  LessonAction, request_guidance, submit, introduction_choice, continue_guided, rate, persisted,
  provisionally_persisted, persist_failed, retry_persist, is_introduction, is_independent_recall,
  is_scored, current_step_for, phase_for_step, advance_to,
}

-- `['answering', 'feedback'].includes(state.phase)`
abbrev pub may_ask_guidance : LessonPhase → Bool
may_ask_guidance answering = true
may_ask_guidance feedback = true
may_ask_guidance _ = false

abbrev pub is_answering : LessonPhase → Bool
is_answering answering = true
is_answering _ = false

abbrev pub is_introducing : LessonPhase → Bool
is_introducing introducing = true
is_introducing _ = false

abbrev pub is_feedback : LessonPhase → Bool
is_feedback feedback = true
is_feedback _ = false

abbrev pub is_persisting : LessonPhase → Bool
is_persisting persisting = true
is_persisting _ = false

abbrev pub is_save_error : LessonPhase → Bool
is_save_error save_error = true
is_save_error _ = false

abbrev pub is_guided : LessonStage → Bool
is_guided guided = true
is_guided _ = false

-- `state.pendingReview?.operationId === operationId`
abbrev pub is_pending : Option PendingLessonReview → String → Bool
is_pending none operation_id = false
is_pending (some r) operation_id = same text_discrete r.operation_id operation_id

module _ {Card Exercise Answer Evaluation : Type 0}
    (engine : Engine Card Exercise Answer Evaluation) (platform : TextPlatform) where
  open engine use {card_id, build_guided_exercise, build_active_recall, evaluate_exercise_answer}
  open platform use {trim, slice_512}

  abbrev State : Type 0
  State = LessonState Card Exercise Evaluation

  -- The three steps that replace the current one.
  unfoldable pub guidance_steps : Card → List (LessonStep Card Exercise)
  guidance_steps card =
      let guide = build_guided_exercise card (card ∷ []) in
      record { stage = introduction; exercise = guide; card = some card }
      ∷ record { stage = guided; exercise = guide; card = some card }
      ∷ record {
        stage = independent_recall;
        exercise = build_active_recall card (card ∷ []);
        card = some card;
      }
      ∷ []

  unfoldable pub insert_guidance : State → Card → State
  insert_guidance s card =
      let steps = splice_one s.index (guidance_steps card) s.steps in
      advance_to (record s { steps = steps; exercises = map (λ x. x.exercise) steps }) s.index

  unfoldable pub previous_introduction : State → LessonStep Card Exercise → Option ℕ
  previous_introduction s step =
      find_index_from 0
        (λ c.
          is_introduction c.stage
          && same text_discrete (card_id c.exercise) (card_id step.exercise))
        s.steps

  unfoldable pub guide_with : State → LessonStep Card Exercise → Card → State
  guide_with s step card = elim (previous_introduction s step) [
    | some previous ↦ advance_to s previous
    | none ↦ insert_guidance s card
  ]

  unfoldable pub guide_step : State → LessonStep Card Exercise → State
  guide_step s step = elim step.card [
    | none ↦ s
    | some card ↦
        if not (may_ask_guidance s.phase) || not (is_scored step.stage)
        then s
        else guide_with s step card
  ]

  unfoldable pub reduce_request_guidance : State → State
  reduce_request_guidance s = elim (current_step_for s) [ none ↦ s | some step ↦ guide_step s step ]

  -- The first independent recall behind the current step.
  unfoldable pub next_recall_from : ℕ → ℕ → List (LessonStep Card Exercise) → Option ℕ
  next_recall_from i index [] = none
  next_recall_from i index (c ∷ steps) =
      let rest = next_recall_from (suc i) index steps in
      if ltb index i && is_independent_recall c.stage then some i else rest

  unfoldable pub choose_step : State → IntroductionChoice → State
  choose_step s to_guided = advance_to s (s.index + 1)
  choose_step s to_independent_recall = elim (next_recall_from 0 s.index s.steps) [
    | none ↦ s
    | some next ↦ advance_to s next
  ]

  unfoldable pub reduce_introduction_choice : State → IntroductionChoice → State
  reduce_introduction_choice s choice = elim (current_step_for s) [
    | none ↦ s
    | some step ↦
        if not (is_introducing s.phase) || not (is_introduction step.stage)
        then s
        else choose_step s choice
  ]

  unfoldable pub reduce_continue_guided : State → State
  reduce_continue_guided s = elim (current_step_for s) [
    | none ↦ s
    | some step ↦
        if not (is_answering s.phase) || not (is_guided step.stage)
        then s
        else advance_to s (s.index + 1)
  ]

  unfoldable pub reduce_submit : State → Answer → State
  reduce_submit s answer = elim (current_step_for s) [
    | none ↦ s
    | some step ↦
        if not (is_answering s.phase) || is_introduction step.stage || is_guided step.stage
        then s
        else record s {
          phase = feedback;
          feedback = some (evaluate_exercise_answer step.exercise answer);
          error = none;
        }
  ]

  unfoldable pub reduce_rate : State → ReviewRating → String → State
  reduce_rate s rating operation_id = elim (current_step_for s) [
    | none ↦ s
    | some step ↦
        if not (is_feedback s.phase)
          || same text_discrete (trim operation_id) ""
          || includes text_discrete s.completed_operation_ids operation_id
          || not (is_scored step.stage)
        then s
        else record s {
          phase = persisting;
          pending_review = some (record {
            item_id = card_id step.exercise;
            operation_id = operation_id;
            rating = rating;
          });
          error = none;
        }
  ]

  unfoldable pub reduce_persisted : State → String → State
  reduce_persisted s operation_id =
      if not (is_persisting s.phase) || not (is_pending s.pending_review operation_id)
      then s
      else record (advance_to s (s.index + 1)) {
        completed_operation_ids = s.completed_operation_ids ++ operation_id ∷ [];
      }

  unfoldable pub reduce_provisionally_persisted : State → String → State
  reduce_provisionally_persisted s operation_id =
      if not (is_persisting s.phase) || not (is_pending s.pending_review operation_id)
      then s
      else let next = s.index + 1 in
        let is_last = leb (length s.exercises) next in
        record s {
          index = if is_last then s.index else next;
          phase = if is_last then sync_pending else phase_for_step (get_elem? s.steps next);
          feedback = if is_last then s.feedback else none;
          pending_review = none;
          sync_pending_review_count = s.sync_pending_review_count + 1;
          error = none;
        }

  -- `a || b` on texts: the second where the first is empty
  or_else : String → String → String
  or_else text fallback = if same text_discrete text "" then fallback else text

  unfoldable pub reduce_persist_failed : State → String → String → State
  unfolding or_else
  reduce_persist_failed s operation_id message =
      if not (is_persisting s.phase) || not (is_pending s.pending_review operation_id)
      then s
      else record s {
        phase = save_error;
        error = some (or_else (slice_512 (trim message)) "Could not save this review.");
      }

  unfoldable pub reduce_retry_persist : State → State
  reduce_retry_persist s = elim s.pending_review [
    | none ↦ s
    | some _ ↦
        if not (is_save_error s.phase) then s else record s { phase = persisting; error = none }
  ]

  unfoldable pub reduce_lesson_state : State → LessonAction Answer → State
  reduce_lesson_state s request_guidance = reduce_request_guidance s
  reduce_lesson_state s (introduction_choice choice) = reduce_introduction_choice s choice
  reduce_lesson_state s continue_guided = reduce_continue_guided s
  reduce_lesson_state s (submit answer) = reduce_submit s answer
  reduce_lesson_state s (rate rating operation_id) = reduce_rate s rating operation_id
  reduce_lesson_state s (persisted operation_id) = reduce_persisted s operation_id
  reduce_lesson_state s (provisionally_persisted operation_id) =
      reduce_provisionally_persisted s operation_id
  reduce_lesson_state s (persist_failed operation_id message) =
      reduce_persist_failed s operation_id message
  reduce_lesson_state s retry_persist = reduce_retry_persist s
