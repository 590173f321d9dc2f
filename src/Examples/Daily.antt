-- ===== src/Examples/Daily.antt =====
-- Daily sessions of one word, whose engine compares texts.
use flash_card.Prelude.{◌≡◌, refl, Bool, true, none, some, List, [], ◌∷◌, String, same, arith}
use flash_card.Prelude.Text.{text_discrete}
use flash_card.Lesson.State.{
  review, persisting, good, Engine, TextPlatform, LessonState, LessonInput, of_exercise,
  request_guidance,
}
use flash_card.Lesson.Reducer.{reduce_lesson_state, reduce_request_guidance, guide_step}
use flash_card.Lesson.Controller.{
  published, missing_outcome, stale_session, Sent, Controller, create_daily_session_controller,
  is_unchanged, settle_save,
}
use flash_card.Lesson.Calls.{
  Call, start_called, answer_submitted, rate_called, close_called, save_ended, calls,
}
use flash_card.Lesson.Saves.{HasValidLesson}
use flash_card.Lesson.Sessions.{daily_calls-HasValidLesson}
use flash_card.Lesson.LateSaves.{ends_session, late_save_ignored}
use flash_card.Lesson.Unchanged.{reduce-unchanged}

abbrev engine : Engine String String String Bool
engine = record {
  card_id = λ word. word;
  build_guided_exercise = λ card cards. card;
  build_active_recall = λ card cards. card;
  evaluate_exercise_answer = λ exercise answer. same text_discrete exercise answer;
}

abbrev platform : TextPlatform
platform = record { trim = λ text. text; slice_512 = λ text. text }

abbrev sent : Sent
sent = record {
  token = 0;
  generation = 1;
  review = record { item_id = "dog"; operation_id = "op1"; rating = good };
}

abbrev one_word : List (LessonInput String String)
one_word = of_exercise "dog" ∷ []

abbrev one_day : List (Call String String String)
one_day =
    start_called one_word
    ∷ answer_submitted "dog"
    ∷ rate_called good "op1"
    ∷ save_ended sent published
    ∷ close_called
    ∷ start_called one_word
    ∷ save_ended sent missing_outcome
    ∷ []

daily_calls-HasValidLesson_example :
    HasValidLesson engine platform
      (calls engine platform (create_daily_session_controller engine platform) one_day)
daily_calls-HasValidLesson_example = daily_calls-HasValidLesson engine platform one_day

abbrev saving : LessonState String String Bool
saving = record {
  exercises = "dog" ∷ [];
  steps = record { stage = review; exercise = "dog"; card = none } ∷ [];
  index = 0;
  phase = persisting;
  feedback = some true;
  pending_review = some sent.review;
  completed_operation_ids = [];
  sync_pending_review_count = 0;
  error = none;
}

-- A session in which the save `sent` is under way.
abbrev waiting : Controller String String Bool
waiting = record {
  session_generation = 1;
  snapshot = some saving;
  pending = ("op1", 0) ∷ [];
  next_token = 1;
}

abbrev next_day : List (Call String String String)
next_day = answer_submitted "dog" ∷ rate_called good "op1" ∷ []

ends : ends_session engine platform (start_called one_word) ≡ true
unfolding ends_session
ends = refl

late_save_ignored_example :
    settle_save engine platform
      (calls engine platform waiting (start_called one_word ∷ next_day))
      sent
      published
    ≡ (calls engine platform waiting (start_called one_word ∷ next_day), stale_session)
late_save_ignored_example =
    late_save_ignored engine platform waiting sent (start_called one_word) next_day published
      (ground arith) (ground arith) ends

unchanged :
    is_unchanged engine platform
      (reduce_lesson_state engine platform saving request_guidance)
      saving
    ≡ true
unfolding reduce_lesson_state reduce_request_guidance guide_step is_unchanged
unchanged = refl

reduce-unchanged_example : reduce_lesson_state engine platform saving request_guidance ≡ saving
reduce-unchanged_example = reduce-unchanged engine platform saving request_guidance unchanged
