-- ===== src/Library/Late.antt =====
-- Callbacks of ownerLibrarySessionController.ts that come after their activation has ended.
use flash_card.Prelude.{
  ℕ, ◌≡◌, ◌≤◌, ◌<◌, inl, inr, refl, Bool, true, false, Option, none, some, List, [], ◌∷◌, ok, throw,
  Option-cases, arith,
}
use flash_card.Library.State.{OwnerLibrary, stop, discard_cards_now, is_active, dispose}
use flash_card.Library.Activation.{activate, adopt, start_migrations, seed_decks}
use flash_card.Library.Migration.{
  seed_failed, on_decks, publish_decks, on_decks_error, on_cards_queued, settle_activation,
}
use flash_card.Library.Legacy.{
  update_context, refresh_total, settle_refresh, begin_migration, receive_migration, end_migration,
  settle_migration,
}
use flash_card.Library.Events.{
  Event, activated, subscribed_decks, stopped, cards_discarded, migration_called, decks_changed,
  disposed, decks_failed, seed_rejected, cards_queued, activation_ended, context_updated,
  refresh_ended, migration_ended, Setting, step, run,
}

module _ (w : Setting) {Card : Type 0} where
  step-generation :
      (s : OwnerLibrary Card) (event : Event Card) → s.generation ≤ (step w s event).generation
  unfolding step activate adopt start_migrations seed_decks stop dispose discard_cards_now
      begin_migration on_decks publish_decks on_decks_error seed_failed on_cards_queued
      settle_activation update_context refresh_total settle_refresh settle_migration
      receive_migration end_migration
  step-generation s (activated none total cached made) = ground arith
  step-generation s (activated (some owner) total cached made) = ground arith
  step-generation s (subscribed_decks a epoch) = ground arith
  step-generation s stopped = ground arith
  step-generation s (disposed a) = ground arith
  step-generation s cards_discarded = ground arith
  step-generation s migration_called = elim (Option-cases s.snapshot.owner_id) [
    | inl nobody ↦ ground arith
    | inr (owner, e) ↦ ground arith
  ]
  step-generation s (decks_changed a none) = ground arith
  step-generation s (decks_changed a (some decks)) = ground arith
  step-generation s (decks_failed a e) = ground arith
  step-generation s (seed_rejected a) = ground arith
  step-generation s (cards_queued a (ok tt) owner) = ground arith
  step-generation s (cards_queued a (throw e) owner) = ground arith
  step-generation s (activation_ended a (ok progress)) = ground arith
  step-generation s (activation_ended a (throw e)) = ground arith
  step-generation s (context_updated none total) = ground arith
  step-generation s (context_updated (some owner) total) = ground arith
  step-generation s (refresh_ended r (ok progress)) = ground arith
  step-generation s (refresh_ended r (throw e)) = ground arith
  step-generation s (migration_ended m (ok result)) = ground arith
  step-generation s (migration_ended m (throw e)) = ground arith

  run-generation :
      (s : OwnerLibrary Card) (events : List (Event Card))
      → s.generation ≤ (run w s events).generation
  unfolding run
  run-generation s [] = ground arith
  run-generation s (event ∷ events) =
      omega (arith, step-generation s event, run-generation (step w s event) events)

-- The activation in which a callback or a wait began.
unfoldable pub generation_of : {Card : Type 0} → Event Card → Option ℕ
generation_of (decks_changed a decks) = some a.generation
generation_of (disposed a) = some a.generation
generation_of (decks_failed a e) = some a.generation
generation_of (seed_rejected a) = some a.generation
generation_of (cards_queued a outcome owner) = some a.generation
generation_of (activation_ended a outcome) = some a.generation
generation_of (refresh_ended r outcome) = some r.generation
generation_of (migration_ended m outcome) = some m.generation
generation_of _ = none

unfoldable pub ends_activation : {Card : Type 0} → Event Card → Bool
ends_activation (activated owner total cached made) = true
ends_activation stopped = true
ends_activation _ = false

module _ (w : Setting) {Card : Type 0} where
  ends-generation :
      (s : OwnerLibrary Card) (event : Event Card)
      → ends_activation event ≡ true
      → s.generation < (step w s event).generation
  unfolding step activate adopt stop ends_activation
  ends-generation s (activated none total cached made) h = ground arith
  ends-generation s (activated (some owner) total cached made) h = ground arith
  ends-generation s stopped h = ground arith
  ends-generation s _ h = absurd (ground arith)

  old_callback :
      (s : OwnerLibrary Card) (late : Event Card) (g : ℕ)
      → generation_of late ≡ some g
      → g < s.generation
      → (step w s late).snapshot ≡ s.snapshot
  unfolding step generation_of is_active dispose on_decks on_decks_error seed_failed on_cards_queued
      settle_activation settle_refresh settle_migration receive_migration end_migration
  old_callback s (decks_changed a none) g h old = ground arith
  old_callback s (decks_changed a (some decks)) g h old = ground arith
  old_callback s (disposed a) g h old = ground arith
  old_callback s (decks_failed a e) g h old = ground arith
  old_callback s (seed_rejected a) g h old = ground arith
  old_callback s (cards_queued a (ok tt) owner) g h old = refl
  old_callback s (cards_queued a (throw e) owner) g h old = ground arith
  old_callback s (activation_ended a (ok progress)) g h old = ground arith
  old_callback s (activation_ended a (throw e)) g h old = ground arith
  old_callback s (refresh_ended r (ok progress)) g h old = ground arith
  old_callback s (refresh_ended r (throw e)) g h old = ground arith
  old_callback s (migration_ended m (ok result)) g h old = ground arith
  old_callback s (migration_ended m (throw e)) g h old = ground arith
  old_callback s _ g h old = absurd (ground arith)

  -- Once the library is stopped or activated again, for the same owner or another, no callback and no
  -- end of a wait of an earlier activation changes what is shown, whatever else happens in between.
  pub late_callback_ignored :
      (s : OwnerLibrary Card) (event : Event Card) (after : List (Event Card)) (late : Event Card)
      (g : ℕ)
      → generation_of late ≡ some g
      → g ≤ s.generation
      → ends_activation event ≡ true
      → (step w (run w s (event ∷ after)) late).snapshot ≡ (run w s (event ∷ after)).snapshot
  unfolding run
  late_callback_ignored s event after late g h old e =
      old_callback (run w s (event ∷ after)) late g h
        (omega (arith, ends-generation s event e, run-generation w (step w s event) after))
