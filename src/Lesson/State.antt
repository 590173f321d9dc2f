-- ===== src/Lesson/State.antt =====
-- The data of lessonReducer.ts, and `createLessonState`.
use flash_card.Prelude.{
  ℕ, Bool, true, false, not, ◌||◌, Option, none, some, List, [], map, String, Outcome, ok, throw,
  length, keep, get_elem?, add_all, ltb, leb, ◌==◌, if◌then◌else◌,
}
use flash_card.Prelude.Text.{text_discrete}

pub data LessonStage : Type 0 where
  introduction guided independent_recall review : LessonStage

pub data LessonPhase : Type 0 where
  introducing answering feedback persisting sync_pending save_error completed : LessonPhase

pub data ReviewRating : Type 0 where
  again hard good easy : ReviewRating

-- The parts of the exercise engine that a lesson calls.
pub record Engine (Card Exercise Answer Evaluation : Type 0) : Type 0 where
  pub card_id : Exercise → String
  pub build_guided_exercise : Card → List Card → Exercise
  pub build_active_recall : Card → List Card → Exercise
  pub evaluate_exercise_answer : Exercise → Answer → Evaluation

-- `text.trim()` and `text.slice(0, 512)`
pub record TextPlatform : Type 0 where
  pub trim : String → String
  pub slice_512 : String → String

pub record LessonStep (Card Exercise : Type 0) : Type 0 where
  pub stage : LessonStage
  pub exercise : Exercise
  pub card : Option Card

pub record PendingLessonReview : Type 0 where
  pub item_id : String
  pub operation_id : String
  pub rating : ReviewRating

pub record LessonState (Card Exercise Evaluation : Type 0) : Type 0 where
  pub exercises : List Exercise
  pub steps : List (LessonStep Card Exercise)
  pub index : ℕ
  pub phase : LessonPhase
  pub feedback : Option Evaluation
  pub pending_review : Option PendingLessonReview
  pub completed_operation_ids : List String
  pub sync_pending_review_count : ℕ
  pub error : Option String

pub data IntroductionChoice : Type 0 where
  to_guided to_independent_recall : IntroductionChoice

pub data LessonAction (Answer : Type 0) : Type 0 where
  request_guidance : LessonAction Answer
  submit : Answer → LessonAction Answer
  introduction_choice : IntroductionChoice → LessonAction Answer
  continue_guided : LessonAction Answer
  rate : ReviewRating → (operation_id : String) → LessonAction Answer
  persisted : (operation_id : String) → LessonAction Answer
  provisionally_persisted : (operation_id : String) → LessonAction Answer
  persist_failed : (operation_id message : String) → LessonAction Answer
  retry_persist : LessonAction Answer

pub data LessonError : Type 0 where
  lesson_size duplicate_reviews : LessonError

abbrev pub is_introduction : LessonStage → Bool
is_introduction introduction = true
is_introduction _ = false

abbrev pub is_independent_recall : LessonStage → Bool
is_independent_recall independent_recall = true
is_independent_recall _ = false

-- `stage === 'review' || stage === 'independent-recall'`
abbrev pub is_scored : LessonStage → Bool
is_scored review = true
is_scored independent_recall = true
is_scored _ = false

-- What `createLessonState` takes: an exercise, or a step.
pub data LessonInput (Card Exercise : Type 0) : Type 0 where
  of_exercise : Exercise → LessonInput Card Exercise
  of_step : LessonStep Card Exercise → LessonInput Card Exercise

module _ {Card Exercise : Type 0} where
  normalize_step : LessonInput Card Exercise → LessonStep Card Exercise
  normalize_step (of_step s) = s
  normalize_step (of_exercise e) = record { stage = review; exercise = e; card = none }

  unfoldable pub normalize_steps :
      List (LessonInput Card Exercise) → List (LessonStep Card Exercise)
  unfolding normalize_step
  normalize_steps = map normalize_step

  abbrev pub phase_for_step : Option (LessonStep Card Exercise) → LessonPhase
  phase_for_step none = answering
  phase_for_step (some s) = if is_introduction s.stage then introducing else answering

module _ {Card Exercise Evaluation : Type 0} where
  abbrev pub current_step_for :
      LessonState Card Exercise Evaluation → Option (LessonStep Card Exercise)
  current_step_for s = get_elem? s.steps s.index

  unfoldable pub advance_to :
      LessonState Card Exercise Evaluation → ℕ → LessonState Card Exercise Evaluation
  advance_to s next = record s {
    index = next;
    phase =
        if leb (length s.steps) next then completed else phase_for_step (get_elem? s.steps next);
    feedback = none;
    pending_review = none;
    error = none;
  }

module _ {Card Exercise : Type 0} (card_id : Exercise → String) where
  abbrev pub scored_steps : List (LessonStep Card Exercise) → List (LessonStep Card Exercise)
  scored_steps = keep (λ s. is_scored s.stage)

  abbrev pub review_ids : List (LessonStep Card Exercise) → List String
  review_ids steps = map (λ s. card_id s.exercise) (scored_steps steps)

  unfoldable pub create_lesson_state :
      (Evaluation : Type 0)
      → List (LessonInput Card Exercise)
      → Outcome LessonError (LessonState Card Exercise Evaluation)
  create_lesson_state Evaluation input =
      let steps = normalize_steps input in
      if ltb (length steps) 1 || ltb 45 (length steps) || ltb 15 (length (scored_steps steps))
      then throw lesson_size
      else if not
          (length (add_all text_discrete [] (review_ids steps)) == length (review_ids steps))
      then throw duplicate_reviews
      else ok (record {
        exercises = map (λ s. s.exercise) steps;
        steps = steps;
        index = 0;
        phase = phase_for_step (get_elem? steps 0);
        feedback = none;
        pending_review = none;
        completed_operation_ids = [];
        sync_pending_review_count = 0;
        error = none;
      })
