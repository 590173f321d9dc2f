-- ===== src/Library/Legacy.antt =====
-- `updateContext` and `migrateLegacy` of ownerLibrarySessionController.ts, each cut at its await.
use flash_card.Prelude.{
  ℕ, ◌+◌, Bool, true, false, not, ◌&&◌, ◌||◌, Option, none, some, String, Outcome, ok, throw, same,
  is_some, ◌==◌, if◌then◌else◌,
}
use flash_card.Prelude.Text.{text_discrete}
use flash_card.Prelude.Number.{Number}
use flash_card.Identity.CloudError.{Texts}
use flash_card.Library.State.{
  IssueTexts, LegacyFailure, get_legacy_migration_issue, ready, OwnerLibrary, positive_or_zero,
  same_user, is_active,
}
use flash_card.Library.Activation.{LegacyProgress}
use flash_card.Library.Migration.{remaining_legacy}

-- A load of the progress that waits.
pub record Refresh : Type 0 where
  pub owner_id : String
  pub generation : ℕ
  pub token : ℕ
  pub total : ℕ

-- A migration that waits.
pub record Migrating : Type 0 where
  pub owner_id : String
  pub generation : ℕ
  pub token : ℕ

pub record MigrationOutcome : Type 0 where
  pub migrated : Number
  pub scanned : Number
  pub complete : Bool

pub data MigrationResult : Type 0 where
  completed : MigrationOutcome → MigrationResult
  busy unavailable : MigrationResult
  failed : LegacyFailure → MigrationResult

-- `migrateLegacy` has returned, or waits.
pub data MigrationCall : Type 0 where
  returned : MigrationResult → MigrationCall
  awaits : Migrating → MigrationCall

abbrev pub holds : Option ℕ → ℕ → Bool
holds none token = false
holds (some held) token = held == token

unfoldable pub migration_result : Outcome LegacyFailure MigrationOutcome → MigrationResult
migration_result (ok result) = completed result
migration_result (throw e) = failed e

module _ {Card : Type 0} where
  -- `updateContext` for the owner of the session and another total, up to its await.
  unfoldable pub refresh_total :
      (available : Bool)
      → OwnerLibrary Card
      → (owner_id : String) → (total : ℕ) → OwnerLibrary Card × Option Refresh
  refresh_total available s owner_id total =
      let t = record s {
        current_cloud_total = total;
        legacy_refresh_token = some s.next_symbol;
        next_symbol = s.next_symbol + 1;
      } in
      if not available || total == 0
      then (record t { snapshot = record s.snapshot { legacy_pending = 0 } }, none)
      else (
        t,
        some (record {
          owner_id = owner_id;
          generation = s.generation;
          token = s.next_symbol;
          total = total;
        }),
      )

  unfoldable pub update_context :
      (available : Bool)
      → OwnerLibrary Card
      → (owner_id : Option String) → (cloud_total : Number) → OwnerLibrary Card × Option Refresh
  update_context available s none cloud_total = (s, none)
  update_context available s (some owner_id) cloud_total =
      if same text_discrete owner_id ""
        || not (same_user s.snapshot.owner_id (some owner_id))
        || positive_or_zero cloud_total == s.current_cloud_total
      then (s, none)
      else refresh_total available s owner_id (positive_or_zero cloud_total)

  unfoldable pub begin_migration :
      (available : Bool) → OwnerLibrary Card → OwnerLibrary Card × MigrationCall
  begin_migration available s = elim s.snapshot.owner_id [
    | none ↦ (s, returned unavailable)
    | some owner_id ↦
        if not available
        then (s, returned unavailable)
        else if is_some s.active_migration
        then (s, returned busy)
        else (
          record s {
            active_migration = some s.next_symbol;
            legacy_refresh_token = none;
            next_symbol = s.next_symbol + 1;
            snapshot = record s.snapshot {
              is_migrating_legacy = true;
              legacy_issue = none;
              error_message = none;
            };
          },
          awaits (record { owner_id = owner_id; generation = s.generation; token = s.next_symbol }),
        )
  ]

  -- The `finally` of `migrateLegacy`.
  unfoldable pub end_migration : OwnerLibrary Card → Migrating → OwnerLibrary Card
  end_migration s m = record s {
    snapshot =
        if is_active s m.owner_id m.generation
        then record s.snapshot { is_migrating_legacy = false }
        else s.snapshot;
    active_migration = if holds s.active_migration m.token then none else s.active_migration;
  }

module _ (texts : Texts) (platform : IssueTexts) {Card : Type 0} where
  -- `updateContext` from its await on.
  unfoldable pub settle_refresh :
      OwnerLibrary Card → Refresh → Outcome LegacyFailure LegacyProgress → OwnerLibrary Card
  unfolding remaining_legacy
  settle_refresh s r (ok progress) =
      if not (is_active s r.owner_id r.generation) || not (holds s.legacy_refresh_token r.token)
      then s
      else record s {
        snapshot = record s.snapshot {
          legacy_pending = remaining_legacy progress.complete r.total progress.scanned;
          legacy_issue = none;
        };
      }
  settle_refresh s r (throw e) =
      if is_active s r.owner_id r.generation && holds s.legacy_refresh_token r.token
      then record s {
        snapshot = record s.snapshot {
          legacy_issue = some (get_legacy_migration_issue texts platform e);
        };
      }
      else s

  -- `migrateLegacy` from its await on, before its `finally`.
  unfoldable pub receive_migration :
      OwnerLibrary Card → Migrating → Outcome LegacyFailure MigrationOutcome → OwnerLibrary Card
  unfolding remaining_legacy
  receive_migration s m (ok result) =
      if is_active s m.owner_id m.generation
      then record s {
        snapshot = record s.snapshot {
          legacy_pending =
              remaining_legacy result.complete s.snapshot.legacy_pending result.scanned;
          legacy_issue = none;
          status = ready;
        };
      }
      else s
  receive_migration s m (throw e) =
      if is_active s m.owner_id m.generation
      then record s {
        snapshot = record s.snapshot {
          status = ready;
          error_message = none;
          legacy_issue = some (get_legacy_migration_issue texts platform e);
        };
      }
      else s

  unfoldable pub settle_migration :
      OwnerLibrary Card
      → Migrating
      → Outcome LegacyFailure MigrationOutcome
      → OwnerLibrary Card × MigrationResult
  unfolding migration_result
  settle_migration s m outcome =
      (end_migration (receive_migration s m outcome) m, migration_result outcome)
