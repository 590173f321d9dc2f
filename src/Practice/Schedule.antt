-- ===== src/Practice/Schedule.antt =====
-- Calls of practiceSessionLifecycle.ts in any order, and answers that come late.
use flash_card.Prelude.{
  ℕ, suc, ◌+◌, ◌≤◌, ◌≡◌, ◌≢◌, ◌⊎◌, inl, inr, refl, true, false, Option, none, some, List, [], ◌∷◌,
  String, includes-add, arith,
}
use flash_card.Prelude.Text.{text_discrete}
use flash_card.Practice.Lifecycle.{
  PracticeActivity, Preparation, Lifecycle, create_practice_session_lifecycle,
  reset_review_authority, reset, replace_owner, start_preparation, Settlement, stale,
  finish_preparation, activate, clear, member,
}
use flash_card.Practice.Claims.{
  ReviewOutcome, saved, retry, record_outcome, claim_review, settle_review, skip_review,
}
use flash_card.Practice.Reviews.{
  IsConsistent, reset_review_authority-IsConsistent, claim_review-IsConsistent,
  settle_review-IsConsistent,
}

-- A call of the lifecycle, or the end of an awaited preparation.
pub data Op : Type 0 where
  owner : Option String → Op
  start : PracticeActivity → Op
  finish : Preparation → Settlement (Unit {0}) → Op
  play : PracticeActivity → (session_token : ℕ) → Op
  stop : Option PracticeActivity → Op
  restart : Op
  claim : (card_id : String) → (review_token : ℕ) → Op
  settle : (card_id : String) → ReviewOutcome → (review_token : ℕ) → Op
  skip : (card_id : String) → Op

unfoldable pub step : Lifecycle → Op → Lifecycle
step s (owner next) = replace_owner s next
step s (start activity) = (start_preparation s activity).0
step s (finish current outcome) = (finish_preparation s current outcome).0
step s (play activity session_token) = (activate s activity session_token).0
step s (stop activity) = clear s activity
step s restart = reset s
step s (claim card_id review_token) = (claim_review s card_id review_token).0
step s (settle card_id outcome review_token) = (settle_review s card_id outcome review_token).0
step s (skip card_id) = skip_review s card_id

unfoldable pub run : Lifecycle → List Op → Lifecycle
run s [] = s
run s (op ∷ ops) = run (step s op) ops

-- Either the review sets are as they were, or they are empty under the next token.
abbrev KeepsReviews : Lifecycle → Lifecycle → Type 0
KeepsReviews s t =
    (t.review_token ≡ s.review_token)
    × (t.pending_review_ids ≡ s.pending_review_ids)
    × (t.reviewed_card_ids ≡ s.reviewed_card_ids)
    × (t.failed_card_ids ≡ s.failed_card_ids)

abbrev EmptiesReviews : Lifecycle → Lifecycle → Type 0
EmptiesReviews s t =
    (t.review_token ≡ s.review_token + 1)
    × (t.pending_review_ids ≡ [])
    × (t.reviewed_card_ids ≡ [])
    × (t.failed_card_ids ≡ [])

module _ (s : Lifecycle) where
  owner_reviews :
      (next : Option String)
      → KeepsReviews s (replace_owner s next) ⊎ EmptiesReviews s (replace_owner s next)
  unfolding replace_owner reset reset_review_authority
  owner_reviews next = ground arith

  start_reviews : (a : PracticeActivity) → KeepsReviews s (start_preparation s a).0
  unfolding start_preparation
  start_reviews a = ground arith

  finish_reviews :
      (p : Preparation) (r : Settlement (Unit {0})) → KeepsReviews s (finish_preparation s p r).0
  unfolding finish_preparation
  finish_reviews p r = ground arith

  play_reviews :
      (a : PracticeActivity) (token : ℕ)
      → KeepsReviews s (activate s a token).0 ⊎ EmptiesReviews s (activate s a token).0
  unfolding activate reset_review_authority
  play_reviews a token = ground arith

  clear_reviews :
      (a : Option PracticeActivity) → KeepsReviews s (clear s a) ⊎ EmptiesReviews s (clear s a)
  unfolding clear
  clear_reviews none = inr (refl, refl, refl, refl)
  clear_reviews (some a) = ground arith

  skip_reviews : (id : String) → KeepsReviews s (skip_review s id)
  unfolding skip_review
  skip_reviews id = ground arith

IsConsistent-of :
    (s t : Lifecycle) → KeepsReviews s t ⊎ EmptiesReviews s t → IsConsistent s → IsConsistent t
IsConsistent-of s t (inl (a, b, c, d)) v = record {
  pending_unique = rw b v.pending_unique;
  reviewed_unique = rw c v.reviewed_unique;
  pending_apart = λ id. rw (b, c) (v.pending_apart id);
  failed_apart = λ id. rw (b, c, d) (v.failed_apart id);
}
IsConsistent-of s t (inr (a, b, c, d)) v = record {
  pending_unique = rw b tt;
  reviewed_unique = rw c tt;
  pending_apart = λ id. rw (b, c) (λ h. refl);
  failed_apart = λ id. rw (b, c, d) (λ h. (refl, refl));
}

step-IsConsistent : (s : Lifecycle) (op : Op) → IsConsistent s → IsConsistent (step s op)
unfolding step
step-IsConsistent s (owner next) v = IsConsistent-of s _ (owner_reviews s next) v
step-IsConsistent s (start a) v = IsConsistent-of s _ (inl (start_reviews s a)) v
step-IsConsistent s (finish p r) v = IsConsistent-of s _ (inl (finish_reviews s p r)) v
step-IsConsistent s (play a token) v = IsConsistent-of s _ (play_reviews s a token) v
step-IsConsistent s (stop a) v = IsConsistent-of s _ (clear_reviews s a) v
step-IsConsistent s restart v =
    unfold reset in
    reset_review_authority-IsConsistent (record s { preparation = none; active = none })
step-IsConsistent s (claim id token) v = claim_review-IsConsistent s id token v
step-IsConsistent s (settle id outcome token) v = settle_review-IsConsistent s id outcome token v
step-IsConsistent s (skip id) v = IsConsistent-of s _ (inl (skip_reviews s id)) v

pub run-IsConsistent : (s : Lifecycle) (ops : List Op) → IsConsistent s → IsConsistent (run s ops)
unfolding run
run-IsConsistent s [] v = v
run-IsConsistent s (op ∷ ops) v = run-IsConsistent (step s op) ops (step-IsConsistent s op v)

-- From its creation on, and under any calls in any order, a session holds no card in two of the
-- states pending, saved and failed, and none twice in one of the first two.
pub create_run-IsConsistent :
    (owner_id : Option String) (ops : List Op)
    → IsConsistent (run (create_practice_session_lifecycle owner_id) ops)
unfolding create_practice_session_lifecycle
create_run-IsConsistent owner_id ops =
    run-IsConsistent (create_practice_session_lifecycle owner_id) ops (record {
      pending_unique = tt;
      reviewed_unique = tt;
      pending_apart = λ id h. refl;
      failed_apart = λ id h. absurd (ground arith);
    })

-- A step never lowers the review token, and under the same token no saved review is lost.
step-keeps_saved :
    (s : Lifecycle) (op : Op) (id : String)
    → (s.review_token ≤ (step s op).review_token)
      × ((step s op).review_token ≡ s.review_token
          → member s.reviewed_card_ids id ≡ true
          → member (step s op).reviewed_card_ids id ≡ true)
unfolding step
step-keeps_saved s (owner next) id = ground (arith, owner_reviews s next)
step-keeps_saved s (start a) id = ground (arith, start_reviews s a)
step-keeps_saved s (finish p r) id = ground (arith, finish_reviews s p r)
step-keeps_saved s (play a token) id = ground (arith, play_reviews s a token)
step-keeps_saved s (stop a) id = ground (arith, clear_reviews s a)
step-keeps_saved s restart id = unfold reset reset_review_authority in ground arith
step-keeps_saved s (claim card token) id = unfold claim_review in ground arith
step-keeps_saved s (settle card saved token) id =
    unfold settle_review record_outcome in
    ground (arith, includes-add text_discrete card id s.reviewed_card_ids)
step-keeps_saved s (settle card retry token) id =
    unfold settle_review record_outcome in ground arith
step-keeps_saved s (skip card) id = ground (arith, skip_reviews s card)

review_token-le : (s : Lifecycle) (ops : List Op) → s.review_token ≤ (run s ops).review_token
unfolding run
review_token-le s [] = omega arith
review_token-le s (op ∷ ops) =
    omega (arith, (step-keeps_saved s op "").0, review_token-le (step s op) ops)

-- As long as the review token stays, a saved review stays saved, whatever is called.
pub run_keeps_saved :
    (s : Lifecycle) (ops : List Op) (id : String)
    → (run s ops).review_token ≡ s.review_token
    → member s.reviewed_card_ids id ≡ true
    → member (run s ops).reviewed_card_ids id ≡ true
unfolding run
run_keeps_saved s [] id e h = h
run_keeps_saved s (op ∷ ops) id e h =
    let (grows, keeps) = step-keeps_saved s op id in
    let later = review_token-le (step s op) ops in
    run_keeps_saved (step s op) ops id (omega arith) (keeps (omega arith) h)

step-generation-le : (s : Lifecycle) (op : Op) → s.generation ≤ (step s op).generation
unfolding step
step-generation-le s (owner next) =
    unfold replace_owner reset reset_review_authority in ground arith
step-generation-le s (start a) = unfold start_preparation in ground arith
step-generation-le s (finish p r) = unfold finish_preparation in ground arith
step-generation-le s (play a token) = unfold activate reset_review_authority in ground arith
step-generation-le s (stop none) = unfold clear in ground arith
step-generation-le s (stop (some a)) = unfold clear in ground arith
step-generation-le s restart = unfold reset reset_review_authority in ground arith
step-generation-le s (claim card token) = unfold claim_review in ground arith
step-generation-le s (settle card saved token) = unfold settle_review record_outcome in ground arith
step-generation-le s (settle card retry token) = unfold settle_review record_outcome in ground arith
step-generation-le s (skip card) = unfold skip_review in ground arith

generation-le : (s : Lifecycle) (ops : List Op) → s.generation ≤ (run s ops).generation
unfolding run
generation-le s [] = omega arith
generation-le s (op ∷ ops) = omega (arith, step-generation-le s op, generation-le (step s op) ops)

-- Once the owner has changed, nothing that was begun under the earlier owner comes through, no
-- matter what is called in between: its preparation ends stale, and its token starts no activity.
pub owner_change_is_final :
    {T : Type 0} (s : Lifecycle) (next : Option String) (ops : List Op) (p : Preparation)
    (outcome : Settlement T) (activity : PracticeActivity)
    → s.owner_id ≢ next
    → p.session_token ≤ s.generation
    → let t = run (replace_owner s next) ops in
      ((finish_preparation t p outcome).1 ≡ stale)
      × (activate t activity p.session_token ≡ (t, false))
unfolding finish_preparation activate
owner_change_is_final s next ops p outcome activity n le =
    let moved : suc s.generation ≤ (replace_owner s next).generation =
      unfold replace_owner reset reset_review_authority in ground arith in
    let later = generation-le (replace_owner s next) ops in (ground arith, ground arith)
