-- ===== src/Examples/Practice.antt =====
-- A practice session of one owner, on small inputs.
use flash_card.Prelude.{
  ℕ, ◌≡◌, ◌≢◌, refl, true, false, Option, none, some, List, [], ◌∷◌, String, arith,
}
use flash_card.Prelude.Text.{text_discrete, texts_differ}
use flash_card.Practice.Lifecycle.{
  study, quiz, Preparation, Lifecycle, create_practice_session_lifecycle, replace_owner, fulfilled,
  stale, finish_preparation, activate, is_active, member,
}
use flash_card.Practice.Claims.{
  ReviewOutcome, saved, retry, record_outcome, claim_review, settle_review, review_summary,
}
use flash_card.Practice.Reviews.{IsConsistent}
use flash_card.Practice.Schedule.{
  Op, start, play, claim, settle, skip, finish, run, create_run-IsConsistent, run_keeps_saved,
  owner_change_is_final,
}
use flash_card.Practice.Settled.{settle_review_once}

abbrev ops : List Op
ops =
    start study
    ∷ play study 0
    ∷ claim "dog" 1
    ∷ claim "dog" 1
    ∷ settle "dog" retry 1
    ∷ skip "cat"
    ∷ claim "dog" 1
    ∷ []

create_run-IsConsistent_example :
    IsConsistent (run (create_practice_session_lifecycle (some "ann")) ops)
create_run-IsConsistent_example = create_run-IsConsistent (some "ann") ops

-- A session in which the review of one card waits and that of another is saved.
abbrev session : Lifecycle
session = record {
  owner_id = some "ann";
  generation = 0;
  preparation = none;
  active = some (record { activity = study; session_token = 0 });
  pending_review_ids = "dog" ∷ [];
  reviewed_card_ids = "cat" ∷ [];
  skipped_card_ids = [];
  failed_card_ids = [];
  review_token = 1;
  next_symbol = 1;
}

one_of : (id : String) → member ("dog" ∷ []) id ≡ true → member ("cat" ∷ []) id ≡ false
one_of id h = ground (arith, texts_differ "dog" "cat" refl)

session-IsConsistent : IsConsistent session
session-IsConsistent = record {
  pending_unique = (refl, tt);
  reviewed_unique = (refl, tt);
  pending_apart = one_of;
  failed_apart = λ id h. absurd (ground arith);
}

settled : (settle_review session "dog" saved 1).1 ≡ true
unfolding settle_review is_active text_discrete
settled = refl

abbrev later_ops : List Op
later_ops = settle "dog" retry 1 ∷ claim "cat" 1 ∷ skip "cat" ∷ []

token_stays : (run session later_ops).review_token ≡ 1
unfolding run flash_card.Practice.Schedule.step settle_review claim_review
    flash_card.Practice.Claims.skip_review record_outcome is_active text_discrete
token_stays = refl

saved_before : member session.reviewed_card_ids "cat" ≡ true
unfolding text_discrete
saved_before = refl

run_keeps_saved_example : member (run session later_ops).reviewed_card_ids "cat" ≡ true
run_keeps_saved_example = run_keeps_saved session later_ops "cat" token_stays saved_before

-- After the review is saved, the other card is claimed, and the saved one again.
abbrev after_saving : List Op
after_saving = settle "dog" retry 1 ∷ claim "dog" 1 ∷ claim "owl" 1 ∷ skip "dog" ∷ []

token_stays_after : (run (settle_review session "dog" saved 1).0 after_saving).review_token ≡ 1
unfolding run flash_card.Practice.Schedule.step settle_review claim_review
    flash_card.Practice.Claims.skip_review record_outcome is_active text_discrete
token_stays_after = refl

settle_review_once_example :
    let later = run (settle_review session "dog" saved 1).0 after_saving in
    (member session.pending_review_ids "dog" ≡ true)
    × (member session.reviewed_card_ids "dog" ≡ false)
    × (member later.reviewed_card_ids "dog" ≡ true)
    × ((other : ℕ)
        → ((claim_review later "dog" other).1 ≡ false)
          × ((outcome : ReviewOutcome) → (settle_review later "dog" outcome other).1 ≡ false))
settle_review_once_example =
    settle_review_once session "dog" 1 after_saving session-IsConsistent settled token_stays_after

abbrev begun : Preparation
begun = record { id = 0; activity = study; session_token = 0 }

abbrev second_owner : List Op
second_owner = start quiz ∷ play quiz 1 ∷ []

owners_differ : ◌≢◌ {A = Option String} (some "ann") (some "bob")
owners_differ e = ground (arith, texts_differ "ann" "bob" refl)

owner_change_is_final_example :
    let t = run (replace_owner session (some "bob")) second_owner in
    ((finish_preparation {T = ℕ} t begun (fulfilled 7)).1 ≡ stale)
    × (activate t study 0 ≡ (t, false))
owner_change_is_final_example =
    owner_change_is_final session (some "bob") second_owner begun (fulfilled 7) study owners_differ
      (omega arith)
