-- ===== src/Library/Owners.antt =====
-- Whose cards a session of ownerLibrarySessionController.ts shows, keeps and counts.
use flash_card.Prelude.{
  ℕ, ◌≡◌, ◌≢◌, ◌≤◌, ◌⊎◌, ◌↔◌, inl, inr, refl, Bool, true, Option, none, some, [], String, ok, throw,
  Option-cases, arith,
}
use flash_card.Prelude.Number.{Number}
use flash_card.Library.CustomDecks.{DeckTexts}
use flash_card.Library.State.{
  plan_cards_for_signed_in_session, Adopted, OwnerLibrary, stop, discard_cards_now, dispose,
}
use flash_card.Library.Activation.{
  CachedLibrary, LegacyProgress, is_claimed, card_plan, next_adopted, adopted_snapshot, activate,
  adopt, start_migrations, seed_decks,
}
use flash_card.Library.Migration.{
  remaining_legacy, count_legacy, without_adopted, seed_failed, on_decks, publish_decks,
  on_decks_error, on_cards_queued, settle_activation,
}
use flash_card.Library.Legacy.{
  update_context, refresh_total, settle_refresh, begin_migration, receive_migration, end_migration,
  settle_migration,
}
use flash_card.Library.Events.{
  Event, activated, subscribed_decks, stopped, disposed, cards_discarded, migration_called,
  decks_changed, decks_failed, seed_rejected, cards_queued, activation_ended, context_updated,
  refresh_ended, migration_ended, Setting, step,
}

module _ {Card : Type 0} where
  -- No cards are adopted by another than the owner.
  abbrev pub IsOwn : Option (Adopted Card) → String → Type 0
  IsOwn none owner = Unit
  IsOwn (some p) owner = p.owner_id ≡ owner

  -- Cached cards that an owner may see: the owner's, or nobody's that no other owner has adopted.
  abbrev pub MaySee : OwnerLibrary Card → CachedLibrary Card → String → Type 0
  MaySee s cached owner =
      (cached.cards_owner ≡ some owner)
      ⊎ ((cached.cards_owner ≡ none) × IsOwn s.pending_adopted owner)

  -- What is adopted later is nobody's, or of the one who adopted before.
  abbrev pub IsSameAdopter : Option (Adopted Card) → Option (Adopted Card) → Type 0
  IsSameAdopter none later = Unit
  IsSameAdopter (some p) none = Unit
  IsSameAdopter (some p) (some q) = q.owner_id ≡ p.owner_id

module _ (deck_texts : DeckTexts) (available : Bool) {Card : Type 0} where
  -- An activation for an owner whose name is not empty shows, of the cached cards, either all, and
  -- then they are that owner's or nobody's that no other owner has adopted, or none; and where they
  -- are such, it shows them.
  pub activate-shows_own :
      (s : OwnerLibrary Card) (owner : String) (total : Number) (cached : CachedLibrary Card)
      (made : ℕ)
      → owner ≢ ""
      → let after = (activate deck_texts available s (some owner) total cached made).0 in
        (after.snapshot.owner_id ≡ some owner)
        × (((after.snapshot.cards ≡ cached.cards) × MaySee s cached owner)
            ⊎ (after.snapshot.cards ≡ []))
        × (MaySee s cached owner → after.snapshot.cards ≡ cached.cards)
  unfolding activate adopt card_plan plan_cards_for_signed_in_session is_claimed adopted_snapshot
      stop
  activate-shows_own s owner total cached made named = elim (Option-cases cached.cards_owner) [
    | inl nobody ↦ elim (Option-cases s.pending_adopted) [
      | inl free ↦ ground arith
      | inr (p, e) ↦ ground arith
    ]
    | inr (other, e) ↦ ground arith
  ]

IsSameAdopter-self : {Card : Type 0} (o : Option (Adopted Card)) → IsSameAdopter o o
IsSameAdopter-self none = tt
IsSameAdopter-self (some p) = refl

IsSameAdopter-none : {Card : Type 0} (o : Option (Adopted Card)) → IsSameAdopter o none
IsSameAdopter-none none = tt
IsSameAdopter-none (some p) = tt

module _ {Card : Type 0} where
  next_adopted-IsSameAdopter :
      (pending : Option (Adopted Card)) (cached : CachedLibrary Card) (owner : String)
      → IsSameAdopter pending (next_adopted pending (card_plan pending cached owner) owner)
  unfolding next_adopted card_plan plan_cards_for_signed_in_session is_claimed
  next_adopted-IsSameAdopter none cached owner = tt
  next_adopted-IsSameAdopter (some p) cached owner = elim (Option-cases cached.cards_owner) [
    | inl nobody ↦ ground arith
    | inr (other, e) ↦ ground arith
  ]

  without_adopted-IsSameAdopter :
      (pending : Option (Adopted Card)) (owner : String)
      → IsSameAdopter pending (without_adopted pending owner)
  unfolding without_adopted
  without_adopted-IsSameAdopter none owner = tt
  without_adopted-IsSameAdopter (some p) owner = ground arith

module _ (w : Setting) {Card : Type 0} where
  activate-IsSameAdopter :
      (s : OwnerLibrary Card) (owner : Option String) (total : Number) (cached : CachedLibrary Card)
      (made : ℕ)
      → IsSameAdopter s.pending_adopted
          (activate w.deck_texts w.available s owner total cached made).0.pending_adopted
  unfolding activate adopt stop
  activate-IsSameAdopter s none total cached made = IsSameAdopter-self s.pending_adopted
  activate-IsSameAdopter s (some owner) total cached made = ground (
    arith,
    IsSameAdopter-self s.pending_adopted,
    next_adopted-IsSameAdopter s.pending_adopted cached owner,
  )

  -- Cards that nobody owned and that an owner has adopted stay that owner's until they are given up:
  -- no step hands them, or the place of them, to another owner.
  pub step_keeps_adopter :
      (s : OwnerLibrary Card) (event : Event Card)
      → IsSameAdopter s.pending_adopted (step w s event).pending_adopted
  unfolding step start_migrations seed_decks stop dispose discard_cards_now begin_migration on_decks
      publish_decks on_decks_error seed_failed on_cards_queued settle_activation update_context
      refresh_total settle_refresh settle_migration receive_migration end_migration
  step_keeps_adopter s (activated owner total cached made) =
      activate-IsSameAdopter s owner total cached made
  step_keeps_adopter s cards_discarded = IsSameAdopter-none s.pending_adopted
  step_keeps_adopter s (cards_queued a (ok tt) owner) =
      without_adopted-IsSameAdopter s.pending_adopted a.owner_id
  step_keeps_adopter s (subscribed_decks a epoch) =
      ground (arith, IsSameAdopter-self s.pending_adopted)
  step_keeps_adopter s (disposed a) = ground (arith, IsSameAdopter-self s.pending_adopted)
  step_keeps_adopter s stopped = ground (arith, IsSameAdopter-self s.pending_adopted)
  step_keeps_adopter s (decks_changed a none) = ground (arith, IsSameAdopter-self s.pending_adopted)
  step_keeps_adopter s (decks_changed a (some decks)) =
      ground (arith, IsSameAdopter-self s.pending_adopted)
  step_keeps_adopter s (decks_failed a e) = ground (arith, IsSameAdopter-self s.pending_adopted)
  step_keeps_adopter s (seed_rejected a) = ground (arith, IsSameAdopter-self s.pending_adopted)
  step_keeps_adopter s (cards_queued a (throw e) owner) =
      ground (arith, IsSameAdopter-self s.pending_adopted)
  step_keeps_adopter s (activation_ended a (ok progress)) =
      ground (arith, IsSameAdopter-self s.pending_adopted)
  step_keeps_adopter s (activation_ended a (throw e)) =
      ground (arith, IsSameAdopter-self s.pending_adopted)
  step_keeps_adopter s (context_updated none total) =
      ground (arith, IsSameAdopter-self s.pending_adopted)
  step_keeps_adopter s (context_updated (some owner) total) =
      ground (arith, IsSameAdopter-self s.pending_adopted)
  step_keeps_adopter s (refresh_ended r (ok progress)) =
      ground (arith, IsSameAdopter-self s.pending_adopted)
  step_keeps_adopter s (refresh_ended r (throw e)) =
      ground (arith, IsSameAdopter-self s.pending_adopted)
  step_keeps_adopter s (migration_ended m (ok result)) =
      ground (arith, IsSameAdopter-self s.pending_adopted)
  step_keeps_adopter s (migration_ended m (throw e)) =
      ground (arith, IsSameAdopter-self s.pending_adopted)
  step_keeps_adopter s migration_called = elim (Option-cases s.snapshot.owner_id) [
    | inl nobody ↦ ground (arith, IsSameAdopter-self s.pending_adopted)
    | inr (owner, e) ↦ ground (arith, IsSameAdopter-self s.pending_adopted)
  ]

-- The older cards that an activation counts: none where the total is 0 or all are done, else at least
-- one, since the last scan is still to come, and no more than the total.
pub count_legacy-bounds :
    (total : ℕ) (progress : LegacyProgress)
    → ((count_legacy total progress ≡ 0) ↔ ((total ≡ 0) ⊎ (progress.complete ≡ true)))
      × (count_legacy total progress ≤ total)
unfolding count_legacy remaining_legacy
count_legacy-bounds total progress = ground arith
