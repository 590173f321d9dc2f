-- ===== src/Library/Migration.antt =====
-- The callbacks of an activation of ownerLibrarySessionController.ts.
use flash_card.Prelude.{
  ℕ, ◌-◌, max, Bool, true, false, Option, none, some, List, [], ◌∷◌, ◌++◌, String, Outcome, ok,
  throw, same, ◌==◌, if◌then◌else◌,
}
use flash_card.Prelude.Text.{text_discrete}
use flash_card.Prelude.Number.{Number}
use flash_card.Identity.CloudError.{Texts, Thrown, is_cloud_quota_error}
use flash_card.Library.CustomDecks.{DeckTexts, normalize_custom_deck_collection}
use flash_card.Library.State.{
  IssueTexts, LegacyFailure, get_legacy_migration_issue, LibraryStatus, adopting, ready, error,
  write_cards, write_decks, Adopted, OwnerLibrary, positive_or_zero, is_active,
}
use flash_card.Library.Activation.{Activation, LegacyProgress, Command, seed_decks}

-- `status === 'adopting' ? 'adopting' : 'ready'`, and `status === 'error' ? 'error' : 'ready'`
abbrev pub adopting_or_ready : LibraryStatus → LibraryStatus
adopting_or_ready adopting = adopting
adopting_or_ready _ = ready

abbrev pub error_or_ready : LibraryStatus → LibraryStatus
error_or_ready error = error
error_or_ready _ = ready

unfoldable pub remaining_legacy : (complete : Bool) → (total : ℕ) → (scanned : Number) → ℕ
remaining_legacy complete total scanned =
    if complete then 0 else max 1 (total - positive_or_zero scanned)

-- `countLegacy`, whose load of the progress is left out where the total is 0.
unfoldable pub count_legacy : (total : ℕ) → LegacyProgress → ℕ
unfolding remaining_legacy
count_legacy total progress =
    if total == 0 then 0 else remaining_legacy progress.complete total progress.scanned

abbrev pub may_claim_cache : Option (Option String) → String → Bool
may_claim_cache none owner_id = false
may_claim_cache (some none) owner_id = true
may_claim_cache (some (some owner)) owner_id = same text_discrete owner owner_id

module _ {Card : Type 0} where
  abbrev pub fail_with : OwnerLibrary Card → String → OwnerLibrary Card
  fail_with s message = record s {
    snapshot = record s.snapshot { status = error; error_message = some message };
  }

  unfoldable pub seed_failed : OwnerLibrary Card → Activation Card → OwnerLibrary Card
  seed_failed s a =
      if is_active s a.owner_id a.generation
      then fail_with s "Could not migrate the local deck profile."
      else s

  unfoldable pub publish_decks : OwnerLibrary Card → String → List String → OwnerLibrary Card
  publish_decks s owner_id decks = record s {
    writes = s.writes ++ write_decks owner_id decks ∷ [];
    snapshot = record s.snapshot { decks = decks };
  }

  -- The deck profile of the cloud; `none` is `null`.
  unfoldable pub on_decks :
      DeckTexts
      → OwnerLibrary Card
      → Activation Card
      → Option (List (Option String))
      → OwnerLibrary Card × List (Command Card)
  on_decks deck_texts s a none =
      if is_active s a.owner_id a.generation
      then seed_decks s a.owner_id s.snapshot.decks
      else (s, [])
  on_decks deck_texts s a (some decks) =
      if is_active s a.owner_id a.generation
      then (
        publish_decks s a.owner_id (normalize_custom_deck_collection deck_texts (some decks)),
        [],
      )
      else (s, [])

  unfoldable pub on_decks_error :
      Texts → OwnerLibrary Card → Activation Card → Thrown → OwnerLibrary Card
  on_decks_error texts s a e =
      if is_active s a.owner_id a.generation
      then record s {
        snapshot = record s.snapshot {
          status = adopting_or_ready s.snapshot.status;
          error_message = some (
              if is_cloud_quota_error texts e
              then "Firebase's daily read limit has been reached. Decks remain available from this device until the quota resets."
              else "Deck cloud updates are temporarily unavailable. Decks remain available from this device.");
        };
      }
      else s

  -- `if (pendingAdoptedCards?.ownerId === ownerId) pendingAdoptedCards = null`
  unfoldable pub without_adopted : Option (Adopted Card) → String → Option (Adopted Card)
  without_adopted none owner_id = none
  without_adopted (some pending) owner_id =
      if same text_discrete pending.owner_id owner_id then none else some pending

  -- The adopted cards are queued, or not; `cards_owner` is the owner of the cached cards then, `none`
  -- where the read throws.
  unfoldable pub on_cards_queued :
      OwnerLibrary Card
      → Activation Card
      → Outcome Thrown (Unit {0})
      → (cards_owner : Option (Option String)) → OwnerLibrary Card
  unfolding without_adopted
  on_cards_queued s a (ok tt) cards_owner = record s {
    pending_adopted = without_adopted s.pending_adopted a.owner_id;
    writes =
        if may_claim_cache cards_owner a.owner_id
        then s.writes ++ write_cards a.owner_id a.visible_cards ∷ []
        else s.writes;
  }
  on_cards_queued s a (throw e) cards_owner =
      if is_active s a.owner_id a.generation
      then fail_with s "Could not queue the local cards for migration."
      else s

module _ (texts : Texts) (platform : IssueTexts) {Card : Type 0} where
  -- The end of `Promise.all` in `activate`.
  unfoldable pub settle_activation :
      OwnerLibrary Card → Activation Card → Outcome LegacyFailure LegacyProgress → OwnerLibrary Card
  settle_activation s a (ok progress) =
      if is_active s a.owner_id a.generation
      then record s {
        snapshot = record s.snapshot {
          legacy_pending = count_legacy a.cloud_total progress;
          status = error_or_ready s.snapshot.status;
        };
      }
      else s
  settle_activation s a (throw e) =
      if is_active s a.owner_id a.generation
      then record s {
        snapshot = record s.snapshot {
          status = ready;
          error_message = none;
          legacy_issue = some (get_legacy_migration_issue texts platform e);
        };
      }
      else s
