-- ===== src/Practice/Settled.antt =====
-- A review of practiceSessionLifecycle.ts that is saved, under the calls that follow.
use flash_card.Prelude.{ℕ, ◌≡◌, ◌∙◌, sym, true, false, List, String, includes-add, arith}
use flash_card.Prelude.Text.{text_discrete}
use flash_card.Practice.Lifecycle.{Lifecycle, member}
use flash_card.Practice.Claims.{ReviewOutcome, saved, record_outcome, claim_review, settle_review}
use flash_card.Practice.Reviews.{IsConsistent, settle_review-IsConsistent}
use flash_card.Practice.Schedule.{Op, run, run-IsConsistent, run_keeps_saved}

-- A saved card is neither claimed nor settled.
saved_is_refused :
    (s : Lifecycle) (card_id : String) (token : ℕ)
    → IsConsistent s
    → member s.reviewed_card_ids card_id ≡ true
    → ((claim_review s card_id token).1 ≡ false)
      × ((outcome : ReviewOutcome) → (settle_review s card_id outcome token).1 ≡ false)
unfolding claim_review settle_review
saved_is_refused s card_id token v h =
    (ground arith, λ outcome. ground (arith, v.pending_apart card_id))

module _ (s : Lifecycle) (card_id : String) where
  -- What one settlement as saved does to the card.
  settle_review-saved :
      (token : ℕ)
      → (settle_review s card_id saved token).1 ≡ true
      → (member s.pending_review_ids card_id ≡ true)
        × (token ≡ s.review_token)
        × ((settle_review s card_id saved token).0.review_token ≡ s.review_token)
        × (member (settle_review s card_id saved token).0.reviewed_card_ids card_id ≡ true)
  unfolding settle_review record_outcome
  settle_review-saved token h = (
    ground arith,
    ground arith,
    ground arith,
    ground (arith, includes-add text_discrete card_id card_id s.reviewed_card_ids),
  )

  -- A review is saved at most once. What a settlement reports as saved was claimed and not yet
  -- reviewed. After any later calls that leave the review token as it was, the card is still
  -- reviewed, and neither a claim nor a settlement of it succeeds, whatever its token and outcome.
  -- The session is consistent before.
  pub settle_review_once :
      (token : ℕ) (ops : List Op)
      → IsConsistent s
      → (settle_review s card_id saved token).1 ≡ true
      → (run (settle_review s card_id saved token).0 ops).review_token ≡ s.review_token
      → let later = run (settle_review s card_id saved token).0 ops in
        (member s.pending_review_ids card_id ≡ true)
        × (member s.reviewed_card_ids card_id ≡ false)
        × (member later.reviewed_card_ids card_id ≡ true)
        × ((other : ℕ)
            → ((claim_review later card_id other).1 ≡ false)
              × ((outcome : ReviewOutcome) → (settle_review later card_id outcome other).1 ≡ false))
  settle_review_once token ops v h e =
      let after = (settle_review s card_id saved token).0 in
      let (claimed, own, kept, reviewed) = settle_review-saved token h in
      let still = run_keeps_saved after ops card_id (e ∙ sym kept) reviewed in
      let consistent =
        run-IsConsistent after ops (settle_review-IsConsistent s card_id saved token v) in
      (
        claimed,
        v.pending_apart card_id claimed,
        still,
        λ other. saved_is_refused (run after ops) card_id other consistent still,
      )
