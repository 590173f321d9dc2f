-- ===== src/Practice/Reviews.antt =====
-- The review sets of practiceSessionLifecycle.ts, their claims and settlements, and the summary.
use flash_card.Prelude.{
  ℕ, ◌+◌, ◌≡◌, refl, true, false, List, [], ◌∷◌, String, length, add_all, IsUnique, includes-add,
  includes-delete, add-IsUnique, delete-IsUnique, arith,
}
use flash_card.Prelude.Text.{text_discrete}
use flash_card.Practice.Lifecycle.{Lifecycle, reset_review_authority, member}
use flash_card.Practice.Claims.{
  ReviewOutcome, saved, retry, record_outcome, claim_review, settle_review, StudyReviewSummary,
  count_card, count_cards, review_summary,
}

pub record IsConsistent (s : Lifecycle) : Type 0 where
  pub pending_unique : IsUnique text_discrete s.pending_review_ids
  pub reviewed_unique : IsUnique text_discrete s.reviewed_card_ids
  pub pending_apart :
      (id : String) → member s.pending_review_ids id ≡ true → member s.reviewed_card_ids id ≡ false
  pub failed_apart :
      (id : String)
      → member s.failed_card_ids id ≡ true
      → (member s.pending_review_ids id ≡ false) × (member s.reviewed_card_ids id ≡ false)

module _ (s : Lifecycle) where
  pub reset_review_authority-IsConsistent : IsConsistent (reset_review_authority s)
  unfolding reset_review_authority
  reset_review_authority-IsConsistent = record {
    pending_unique = tt;
    reviewed_unique = tt;
    pending_apart = λ id h. refl;
    failed_apart = λ id h. (refl, refl);
  }

  -- A claim and its settlement keep the review sets apart, whatever the token and the answer.
  pub claim_review-IsConsistent :
      (card_id : String) (token : ℕ)
      → IsConsistent s
      → IsConsistent (claim_review s card_id token).0
  unfolding claim_review
  claim_review-IsConsistent card_id token v = record {
    pending_unique =
        ground (arith, v.pending_unique, add-IsUnique text_discrete card_id s.pending_review_ids);
    reviewed_unique = ground (arith, v.reviewed_unique);
    pending_apart = λ id h.
        ground
          (arith, v.pending_apart id, includes-add text_discrete card_id id s.pending_review_ids);
    failed_apart = λ id h. ground (
      arith,
      v.failed_apart id,
      includes-add text_discrete card_id id s.pending_review_ids,
      includes-delete text_discrete card_id id s.failed_card_ids,
    );
  }

  pub settle_review-IsConsistent :
      (card_id : String) (outcome : ReviewOutcome) (token : ℕ)
      → IsConsistent s
      → IsConsistent (settle_review s card_id outcome token).0
  unfolding settle_review record_outcome
  settle_review-IsConsistent card_id saved token v = record {
    pending_unique =
        ground
          (arith, v.pending_unique, delete-IsUnique text_discrete card_id s.pending_review_ids);
    reviewed_unique =
        ground (arith, v.reviewed_unique, add-IsUnique text_discrete card_id s.reviewed_card_ids);
    pending_apart = λ id h. ground (
      arith,
      v.pending_apart id,
      includes-delete text_discrete card_id id s.pending_review_ids,
      includes-add text_discrete card_id id s.reviewed_card_ids,
    );
    failed_apart = λ id h. ground (
      arith,
      v.failed_apart id,
      includes-delete text_discrete card_id id s.pending_review_ids,
      includes-add text_discrete card_id id s.reviewed_card_ids,
    );
  }
  settle_review-IsConsistent card_id retry token v = record {
    pending_unique =
        ground
          (arith, v.pending_unique, delete-IsUnique text_discrete card_id s.pending_review_ids);
    reviewed_unique = ground (arith, v.reviewed_unique);
    pending_apart = λ id h.
        ground (
          arith,
          v.pending_apart id,
          includes-delete text_discrete card_id id s.pending_review_ids,
        );
    failed_apart = λ id h. ground (
      arith,
      v.failed_apart id,
      v.pending_apart id,
      includes-delete text_discrete card_id id s.pending_review_ids,
      includes-add text_discrete card_id id s.failed_card_ids,
    );
  }

abbrev total : StudyReviewSummary → ℕ
total t = t.saved_count + t.skipped_count + t.failed_count + t.pending_count + t.remaining_count

total-count_cards :
    (s : Lifecycle) (t : StudyReviewSummary) (ids : List String)
    → total (count_cards s t ids) ≡ total t + length ids
unfolding count_cards
total-count_cards s t [] = omega arith
total-count_cards s t (id ∷ ids) =
    let one : total (count_card s t id) ≡ total t + 1 = unfold count_card in ground arith in
    omega (arith, one, total-count_cards s (count_card s t id) ids)

-- The summary puts every card of the round into one of its five counts, and counts a card that
-- stands in the list more than once only once.
pub review_summary-total :
    (s : Lifecycle) (card_ids : List String)
    → let t = review_summary s card_ids in
      t.saved_count + t.skipped_count + t.failed_count + t.pending_count + t.remaining_count
      ≡ length (add_all text_discrete [] card_ids)
unfolding review_summary
review_summary-total s card_ids =
    omega (arith, total-count_cards s _ (add_all text_discrete [] card_ids))
