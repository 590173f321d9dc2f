-- ===== src/Lesson/Invariant.antt =====
-- The invariant of a lesson of lessonReducer.ts, and each action against it.
use flash_card.Prelude.{
  ℕ, zero, suc, ◌≤◌, ◌<◌, ◌≡◌, ◌≢◌, refl, true, false, Option, none, some, List, [], ◌∷◌, map,
  String, length, includes, IsUnique, get_elem?, arith,
}
use flash_card.Prelude.Text.{text_discrete}
use flash_card.Lesson.State.{
  LessonPhase, introducing, answering, feedback, persisting, sync_pending, save_error, completed,
  LessonStep, PendingLessonReview, LessonState, is_introduction, is_scored, current_step_for,
  phase_for_step, advance_to,
}

module _ {Card Exercise : Type 0} (card_id : Exercise → String) where
  -- A review that waits is of the current step, which is scored, and is not yet credited.
  abbrev pub Waits :
      Option PendingLessonReview → Option (LessonStep Card Exercise) → List String → Type 0
  Waits none step done = ⊥
  Waits (some r) none done = ⊥
  Waits (some r) (some step) done =
      (is_scored step.stage ≡ true)
      × (r.item_id ≡ card_id step.exercise)
      × (includes text_discrete done r.operation_id ≡ false)

  -- What each phase says of the current step, of the waiting review and of the feedback.
  abbrev pub FitsPhase :
      {Evaluation : Type 0}
      → LessonPhase
      → Option PendingLessonReview
      → Option (LessonStep Card Exercise)
      → Option Evaluation
      → List String
      → Type 0
  FitsPhase introducing r none f done = ⊥
  FitsPhase introducing r (some step) f done = (is_introduction step.stage ≡ true) × (r ≡ none)
  FitsPhase answering r none f done = ⊥
  FitsPhase answering r (some step) f done = (is_introduction step.stage ≡ false) × (r ≡ none)
  FitsPhase feedback r none f done = ⊥
  FitsPhase feedback r (some step) f done = (is_scored step.stage ≡ true) × (r ≡ none) × (f ≢ none)
  FitsPhase persisting r step f done = Waits r step done
  FitsPhase save_error r step f done = Waits r step done
  FitsPhase sync_pending r step f done = (step ≢ none) × (r ≡ none)
  FitsPhase completed r step f done = (step ≡ none) × (r ≡ none)

  pub record IsValid {Evaluation : Type 0} (s : LessonState Card Exercise Evaluation) : Type 0 where
    pub follows : s.exercises ≡ map (λ x. x.exercise) s.steps
    pub fits :
        FitsPhase s.phase s.pending_review (current_step_for s) s.feedback s.completed_operation_ids
    pub credited_once : IsUnique text_discrete s.completed_operation_ids

get_elem?-none {ℓ} : {A : Type ℓ} (xs : List A) (i : ℕ) → length xs ≤ i → get_elem? xs i ≡ none
get_elem?-none [] i h = refl
get_elem?-none (x ∷ xs) zero h = elim h [ ]
get_elem?-none (x ∷ xs) (suc i) h = get_elem?-none xs i (omega arith)

pub get_elem?-some {ℓ} :
    {A : Type ℓ} (xs : List A) (i : ℕ) → i < length xs → (x : A) × (get_elem? xs i ≡ some x)
get_elem?-some [] i h = elim h [ ]
get_elem?-some (x ∷ xs) zero h = (x, refl)
get_elem?-some (x ∷ xs) (suc i) h = get_elem?-some xs i (omega arith)

pub get_elem?-lt {ℓ} :
    {A : Type ℓ} (xs : List A) (i : ℕ) {x : A} → get_elem? xs i ≡ some x → i < length xs
get_elem?-lt [] i h = absurd (ground arith)
get_elem?-lt (x ∷ xs) zero h = omega arith
get_elem?-lt (x ∷ xs) (suc i) h = omega (arith, get_elem?-lt xs i h)

pub length-map {ℓ κ} :
    {A : Type ℓ} {B : Type κ} (f : A → B) (xs : List A) → length (map f xs) ≡ length xs
length-map f [] = refl
length-map f (x ∷ xs) = omega (arith, length-map f xs)

module _ {Card Exercise Evaluation : Type 0} (card_id : Exercise → String) where
  pub phase_for_step-FitsPhase :
      (step : Option (LessonStep Card Exercise)) (f : Option Evaluation) (done : List String)
      → step ≢ none
      → FitsPhase card_id (phase_for_step step) none step f done
  phase_for_step-FitsPhase none f done h = absurd (h refl)
  phase_for_step-FitsPhase (some step) f done h = ground arith

  -- Wherever `advanceTo` goes, what it gives fits its phase.
  pub advance_to-IsValid :
      (s : LessonState Card Exercise Evaluation) (next : ℕ) (done : List String)
      → s.exercises ≡ map (λ x. x.exercise) s.steps
      → IsUnique text_discrete done
      → IsValid card_id (record (advance_to s next) { completed_operation_ids = done })
  unfolding advance_to
  advance_to-IsValid s next done e u = record {
    follows = e;
    fits = ground (
      arith,
      get_elem?-none s.steps next,
      get_elem?-some s.steps next,
      phase_for_step-FitsPhase (get_elem? s.steps next) none done,
    );
    credited_once = u;
  }
