-- ===== src/Examples/Lesson.antt =====
-- A lesson of two words, whose engine compares texts.
use flash_card.Prelude.{
  ◌≡◌, ◌⊎◌, refl, Bool, true, none, some, List, [], ◌∷◌, ◌++◌, String, ok, same,
}
use flash_card.Prelude.Text.{text_discrete}
use flash_card.Lesson.State.{
  review, completed, persisting, answering, good, Engine, TextPlatform, LessonState, LessonStep,
  LessonInput, of_exercise, LessonAction, submit, rate, persisted, persist_failed, retry_persist,
  create_lesson_state, normalize_steps,
}
use flash_card.Lesson.Reducer.{is_pending, reduce_lesson_state}
use flash_card.Lesson.Invariant.{IsValid}
use flash_card.Lesson.Runs.{run, create_run-IsValid, credited_by_persisted}

abbrev engine : Engine String String String Bool
engine = record {
  card_id = λ word. word;
  build_guided_exercise = λ card cards. card;
  build_active_recall = λ card cards. card;
  evaluate_exercise_answer = λ exercise answer. same text_discrete exercise answer;
}

abbrev platform : TextPlatform
platform = record { trim = λ text. text; slice_512 = λ text. text }

abbrev two_words : List (LessonInput String String)
two_words = of_exercise "dog" ∷ of_exercise "cat" ∷ []

abbrev step_of : String → LessonStep String String
step_of word = record { stage = review; exercise = word; card = none }

abbrev first_word : LessonState String String Bool
first_word = record {
  exercises = "dog" ∷ "cat" ∷ [];
  steps = step_of "dog" ∷ step_of "cat" ∷ [];
  index = 0;
  phase = answering;
  feedback = none;
  pending_review = none;
  completed_operation_ids = [];
  sync_pending_review_count = 0;
  error = none;
}

created : create_lesson_state (engine.card_id) Bool two_words ≡ ok first_word
unfolding create_lesson_state normalize_steps text_discrete
created = refl

abbrev answered : List (LessonAction String)
answered =
    submit "dog"
    ∷ rate good "op1"
    ∷ persist_failed "op1" "offline"
    ∷ retry_persist
    ∷ persisted "op1"
    ∷ persisted "op1"
    ∷ submit "bird"
    ∷ []

create_run-IsValid_example : IsValid (λ word. word) (run engine platform first_word answered)
create_run-IsValid_example = create_run-IsValid engine platform two_words answered created

abbrev after_last : LessonState String String Bool
after_last = record first_word { index = 2; phase = completed }

abbrev saving : LessonState String String Bool
saving = record first_word {
  phase = persisting;
  feedback = some true;
  pending_review = some (record { item_id = "dog"; operation_id = "op1"; rating = good });
}

waits : is_pending saving.pending_review "op1" ≡ true
unfolding text_discrete
waits = refl

credited_by_persisted_example :
    ((reduce_lesson_state engine platform saving (persisted "op1")).completed_operation_ids ≡ [])
    ⊎ ((operation_id : String) × (◌≡◌ {A = LessonAction String}
          (persisted "op1")
          (persisted operation_id))
        × (saving.phase ≡ persisting)
        × (is_pending saving.pending_review operation_id ≡ true)
        × ((reduce_lesson_state engine platform saving (persisted "op1")).completed_operation_ids
            ≡ [] ++ operation_id ∷ []))
credited_by_persisted_example = credited_by_persisted engine platform saving (persisted "op1")
