-- ===== src/Library/Events.antt =====
-- Everything that may happen to a session of ownerLibrarySessionController.ts, in any order.
use flash_card.Prelude.{ℕ, Bool, Option, List, [], ◌∷◌, String, Outcome}
use flash_card.Prelude.Number.{Number}
use flash_card.Identity.CloudError.{Texts, Thrown}
use flash_card.Library.CustomDecks.{DeckTexts}
use flash_card.Library.State.{
  IssueTexts, LegacyFailure, OwnerLibrary, stop, dispose, discard_cards_now,
}
use flash_card.Library.Activation.{
  CachedLibrary, Activation, LegacyProgress, activate, start_migrations,
}
use flash_card.Library.Migration.{
  seed_failed, on_decks, on_decks_error, on_cards_queued, settle_activation,
}
use flash_card.Library.Legacy.{
  Refresh, Migrating, MigrationOutcome, update_context, settle_refresh, begin_migration,
  settle_migration,
}

-- The calls, and the ends of the waits.
pub data Event (Card : Type 0) : Type 0 where
  activated : Option String → Number → CachedLibrary Card → (made : ℕ) → Event Card
  subscribed_decks : Activation Card → Option ℕ → Event Card
  disposed : Activation Card → Event Card
  stopped cards_discarded migration_called : Event Card
  decks_changed : Activation Card → Option (List (Option String)) → Event Card
  decks_failed : Activation Card → Thrown → Event Card
  seed_rejected : Activation Card → Event Card
  cards_queued : Activation Card → Outcome Thrown (Unit {0}) → Option (Option String) → Event Card
  activation_ended : Activation Card → Outcome LegacyFailure LegacyProgress → Event Card
  context_updated : Option String → Number → Event Card
  refresh_ended : Refresh → Outcome LegacyFailure LegacyProgress → Event Card
  migration_ended : Migrating → Outcome LegacyFailure MigrationOutcome → Event Card

-- The platform, and whether the cloud is available.
pub record Setting : Type 0 where
  pub deck_texts : DeckTexts
  pub texts : Texts
  pub issue_texts : IssueTexts
  pub available : Bool

module _ (w : Setting) {Card : Type 0} where
  unfoldable pub step : OwnerLibrary Card → Event Card → OwnerLibrary Card
  step s (activated owner_id cloud_total cached made) =
      (activate w.deck_texts w.available s owner_id cloud_total cached made).0
  step s (subscribed_decks a library_epoch) = (start_migrations s a library_epoch).0
  step s stopped = stop s
  step s (disposed a) = dispose s a.owner_id a.generation
  step s cards_discarded = discard_cards_now s
  step s migration_called = (begin_migration w.available s).0
  step s (decks_changed a decks) = (on_decks w.deck_texts s a decks).0
  step s (decks_failed a e) = on_decks_error w.texts s a e
  step s (seed_rejected a) = seed_failed s a
  step s (cards_queued a outcome cards_owner) = on_cards_queued s a outcome cards_owner
  step s (activation_ended a outcome) = settle_activation w.texts w.issue_texts s a outcome
  step s (context_updated owner_id cloud_total) =
      (update_context w.available s owner_id cloud_total).0
  step s (refresh_ended r outcome) = settle_refresh w.texts w.issue_texts s r outcome
  step s (migration_ended m outcome) = (settle_migration w.texts w.issue_texts s m outcome).0

  unfoldable pub run : OwnerLibrary Card → List (Event Card) → OwnerLibrary Card
  run s [] = s
  run s (event ∷ events) = run (step s event) events
