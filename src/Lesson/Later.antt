-- ===== src/Lesson/Later.antt =====
-- Saves of `createDailySessionController` under way in an earlier session, against each of its calls.
use flash_card.Prelude.{ℕ, ◌≡◌, ◌≢◌, ◌<◌, inl, inr, some, String, Option-cases, arith}
use flash_card.Prelude.Text.{text_discrete}
use flash_card.Prelude.Keyed.{get, get-put, get-remove}
use flash_card.Lesson.State.{
  ReviewRating, Engine, TextPlatform, PendingLessonReview, LessonState, LessonAction, rate,
  retry_persist,
}
use flash_card.Lesson.Controller.{
  ReviewOutcome, durably_queued, published, unsaved, missing_outcome, rejected, Sent, Controller,
  reduce, persist, forget, apply_saved, apply_failed, apply_outcome, receive_outcome, settle_save,
}
use flash_card.Lesson.Calls.{apply_action, rate_feedback, rate_new, rate_card, retry}

module _ {Card Exercise Evaluation : Type 0} where
  -- The session is a later one than that of a save, whose promise it does not know.
  pub record IsLater (sent : Sent) (c : Controller Card Exercise Evaluation) : Type 0 where
    pub newer : sent.generation < c.session_generation
    pub unknown : (id : String) (t : ℕ) → get text_discrete id c.pending ≡ some t → t ≢ sent.token
    pub next : sent.token < c.next_token

module _ {Card Exercise Answer Evaluation : Type 0}
    (engine : Engine Card Exercise Answer Evaluation) (platform : TextPlatform) where
  abbrev State : Type 0
  State = LessonState Card Exercise Evaluation

  abbrev Daily : Type 0
  Daily = Controller Card Exercise Evaluation

  persist-IsLater :
      (sent : Sent) (c : Daily) (review : PendingLessonReview)
      → IsLater sent c
      → IsLater sent (persist engine platform c review).0
  unfolding persist
  persist-IsLater sent c review l =
      let id = review.operation_id in
      elim (Option-cases (get text_discrete id c.pending)) [
        | inl free ↦ record {
          newer = ground (arith, l.newer);
          unknown = λ j t h.
              ground
                (arith, l.next, l.unknown j t, get-put text_discrete id j c.next_token c.pending);
          next = ground (arith, l.next);
        }
        | inr (token, there) ↦ ground arith
      ]

  forget-IsLater :
      (sent : Sent) (c : Daily) (other : Sent)
      → IsLater sent c
      → IsLater sent (forget engine platform c other)
  unfolding forget
  forget-IsLater sent c other l =
      let id = other.review.operation_id in
      elim (Option-cases (get text_discrete id c.pending)) [
        | inl gone ↦ ground arith
        | inr (token, there) ↦ record {
          newer = ground (arith, l.newer);
          unknown = λ j t h. ground (arith, l.unknown j t, get-remove text_discrete id j c.pending);
          next = ground (arith, l.next);
        }
      ]

  apply_outcome-IsLater :
      (sent : Sent) (c : Daily) (s : State) (review : PendingLessonReview) (outcome : ReviewOutcome)
      → IsLater sent c
      → IsLater sent (apply_outcome engine platform c s review outcome).0
  unfolding apply_outcome apply_saved apply_failed
  apply_outcome-IsLater sent c s review durably_queued l = ground arith
  apply_outcome-IsLater sent c s review published l = ground arith
  apply_outcome-IsLater sent c s review (unsaved status) l = ground arith
  apply_outcome-IsLater sent c s review missing_outcome l = ground arith
  apply_outcome-IsLater sent c s review (rejected message) l = ground arith

  receive-IsLater :
      (sent : Sent) (c : Daily) (other : Sent) (outcome : ReviewOutcome)
      → IsLater sent c
      → IsLater sent (receive_outcome engine platform c other outcome).0
  unfolding receive_outcome
  receive-IsLater sent c other outcome l = elim (Option-cases c.snapshot) [
    | inl no_lesson ↦ ground arith
    | inr (s, e) ↦ ground (arith, apply_outcome-IsLater sent c s other.review outcome l)
  ]

  pub settle-IsLater :
      (sent : Sent) (c : Daily) (other : Sent) (outcome : ReviewOutcome)
      → IsLater sent c
      → IsLater sent (settle_save engine platform c other outcome).0
  unfolding settle_save
  settle-IsLater sent c other outcome l =
      forget-IsLater sent (receive_outcome engine platform c other outcome).0 other
        (receive-IsLater sent c other outcome l)

  pub apply_action-IsLater :
      (sent : Sent) (c : Daily) (s : State) (action : LessonAction Answer)
      → IsLater sent c
      → IsLater sent (apply_action engine platform c s action).0
  unfolding apply_action
  apply_action-IsLater sent c s action l = ground arith

  rate_new-IsLater :
      (sent : Sent) (c : Daily) (s : State) (rating : ReviewRating) (created : String)
      → IsLater sent c
      → IsLater sent (rate_new engine platform c s rating created).0
  unfolding rate_new rate_feedback
  rate_new-IsLater sent c s rating created l =
      let act : LessonAction Answer = rate rating (platform.trim created) in
      let next = reduce engine platform s act in
      elim (Option-cases next.pending_review) [
        | inl none_yet ↦ ground arith
        | inr (review, e) ↦
            ground (arith, persist-IsLater sent (record c { snapshot = some next }) review)
      ]

  pub rate_card-IsLater :
      (sent : Sent) (c : Daily) (rating : ReviewRating) (created : String)
      → IsLater sent c
      → IsLater sent (rate_card engine platform c rating created).0
  unfolding rate_card
  rate_card-IsLater sent c rating created l = elim (Option-cases c.snapshot) [
    | inl no_lesson ↦ ground arith
    | inr (s, e) ↦ elim (Option-cases s.pending_review) [
      | inl no_review ↦ ground (arith, rate_new-IsLater sent c s rating created l)
      | inr (review, f) ↦
          ground
            (arith, rate_new-IsLater sent c s rating created l, persist-IsLater sent c review l)
    ]
  ]

  pub retry-IsLater :
      (sent : Sent) (c : Daily) → IsLater sent c → IsLater sent (retry engine platform c).0
  unfolding retry
  retry-IsLater sent c l = elim (Option-cases c.snapshot) [
    | inl no_lesson ↦ ground arith
    | inr (s, e) ↦ elim (Option-cases s.pending_review) [
      | inl no_review ↦ ground arith
      | inr (review, f) ↦
          let next = reduce engine platform s retry_persist in
          ground (arith, persist-IsLater sent (record c { snapshot = some next }) review)
    ]
  ]
