-- ===== src/Practice/Claims.antt =====
-- The reviews of `createPracticeSessionLifecycle`: claims, settlements, skips and the summary.
use flash_card.Prelude.{
  ℕ, ◌+◌, Bool, true, false, not, ◌&&◌, ◌||◌, List, [], ◌∷◌, String, add, add_all, delete, ◌==◌,
  if◌then◌else◌,
}
use flash_card.Prelude.Text.{text_discrete}
use flash_card.Practice.Lifecycle.{study, Lifecycle, is_active, member}

-- The token is the caller's, or by default the current one.
unfoldable pub claim_review : Lifecycle → String → ℕ → Lifecycle × Bool
claim_review s card_id expected =
    if not (expected == s.review_token)
      || not (is_active s study)
      || member s.pending_review_ids card_id
      || member s.reviewed_card_ids card_id
    then (s, false)
    else (
      record s {
        pending_review_ids = add text_discrete card_id s.pending_review_ids;
        failed_card_ids = delete text_discrete card_id s.failed_card_ids;
      },
      true,
    )

pub data ReviewOutcome : Type 0 where
  saved retry : ReviewOutcome

unfoldable pub record_outcome : Lifecycle → String → ReviewOutcome → Lifecycle
record_outcome s card_id saved = record s {
  reviewed_card_ids = add text_discrete card_id s.reviewed_card_ids;
}
record_outcome s card_id retry = record s {
  failed_card_ids = add text_discrete card_id s.failed_card_ids;
}

unfoldable pub settle_review : Lifecycle → String → ReviewOutcome → ℕ → Lifecycle × Bool
settle_review s card_id outcome expected =
    let was_pending = member s.pending_review_ids card_id in
    let without = record s {
      pending_review_ids = delete text_discrete card_id s.pending_review_ids;
    } in
    if not (expected == s.review_token)
    then (s, false)
    else if not (is_active s study) || not was_pending
    then (without, false)
    else (record_outcome without card_id outcome, true)

unfoldable pub skip_review : Lifecycle → String → Lifecycle
skip_review s card_id =
    if is_active s study && not (member s.reviewed_card_ids card_id)
    then record s { skipped_card_ids = add text_discrete card_id s.skipped_card_ids }
    else s

abbrev pub is_reviewed : Lifecycle → String → Bool
is_reviewed s card_id = is_active s study && member s.reviewed_card_ids card_id

pub record StudyReviewSummary : Type 0 where
  pub saved_count : ℕ
  pub skipped_count : ℕ
  pub failed_count : ℕ
  pub pending_count : ℕ
  pub remaining_count : ℕ

-- The loop body of `reviewSummary`.
unfoldable pub count_card : Lifecycle → StudyReviewSummary → String → StudyReviewSummary
count_card s summary id =
    if not (is_active s study)
    then record summary { remaining_count = summary.remaining_count + 1 }
    else if member s.reviewed_card_ids id
    then record summary { saved_count = summary.saved_count + 1 }
    else if member s.pending_review_ids id
    then record summary { pending_count = summary.pending_count + 1 }
    else if member s.failed_card_ids id
    then record summary { failed_count = summary.failed_count + 1 }
    else if member s.skipped_card_ids id
    then record summary { skipped_count = summary.skipped_count + 1 }
    else record summary { remaining_count = summary.remaining_count + 1 }

unfoldable pub count_cards : Lifecycle → StudyReviewSummary → List String → StudyReviewSummary
count_cards s summary [] = summary
count_cards s summary (id ∷ ids) = count_cards s (count_card s summary id) ids

unfoldable pub review_summary : Lifecycle → List String → StudyReviewSummary
unfolding count_cards
review_summary s card_ids =
    count_cards s
      (record {
        saved_count = 0;
        skipped_count = 0;
        failed_count = 0;
        pending_count = 0;
        remaining_count = 0;
      })
      (add_all text_discrete [] card_ids)
