-- ===== src/Library/State.antt =====
-- src/lib/sessionCards.ts, and the state of `createOwnerLibrarySessionController`.
use flash_card.Prelude.{
  ℕ, ◌+◌, Bool, true, false, ◌&&◌, Option, none, some, List, [], ◌∷◌, ◌++◌, String, same, includes,
  ◌==◌, if◌then◌else◌,
}
use flash_card.Prelude.Text.{text_discrete}
use flash_card.Prelude.Number.{Number, safe_positive?}
use flash_card.Identity.CloudError.{Texts, Thrown, is_cloud_quota_error}

abbrev pub same_user : Option String → Option String → Bool
same_user none none = true
same_user (some a) (some b) = same text_discrete a b
same_user _ _ = false

pub record SignedInCardSessionPlan (T : Type 0) : Type 0 where
  pub visible_cards : List T
  pub cards_to_migrate : List T
  pub discard_local_cache : Bool

module _ {T : Type 0} where
  unfoldable pub select_cards_visible_for_session :
      List T → (owner_user_id current_user_id : Option String) → List T
  select_cards_visible_for_session cards owner_user_id current_user_id =
      if same_user owner_user_id current_user_id then cards else []

  unfoldable pub plan_cards_for_signed_in_session :
      List T → Option String → (current_user_id : String) → SignedInCardSessionPlan T
  plan_cards_for_signed_in_session cards none current_user_id = record {
    visible_cards = cards;
    cards_to_migrate = cards;
    discard_local_cache = false;
  }
  plan_cards_for_signed_in_session cards (some owner_user_id) current_user_id =
      if same text_discrete owner_user_id current_user_id
      then record { visible_cards = cards; cards_to_migrate = []; discard_local_cache = false }
      else record { visible_cards = []; cards_to_migrate = []; discard_local_cache = true }

unfoldable pub can_use_device_backup_for_session : Option String → Option String → Bool
can_use_device_backup_for_session backup_user_id current_user_id =
    same_user backup_user_id current_user_id

pub data IssueKind : Type 0 where
  temporary cloud_access trusted_migration : IssueKind

pub record LegacyMigrationIssue : Type 0 where
  pub kind : IssueKind
  pub message : String
  pub retryable : Bool

-- A thrown value, with its `reason` and its `code` where these are texts.
pub record LegacyFailure : Type 0 where
  pub reason : Option String
  pub code : Option String
  pub thrown : Thrown

-- `toLowerCase`, and `replace(/^firestore\//, '')`
pub record IssueTexts : Type 0 where
  pub lower : String → String
  pub without_firestore : String → String

module _ (texts : Texts) (platform : IssueTexts) where
  open platform use {lower, without_firestore}

  issue_field : Option String → String
  issue_field none = ""
  issue_field (some value) = lower value

  issue_of_code : Thrown → String → LegacyMigrationIssue
  issue_of_code e code =
      if same text_discrete code "unauthenticated"
      then record {
        kind = cloud_access;
        retryable = true;
        message = "Sign in again to continue this library upgrade. Your cards remain safe.";
      }
      else if includes text_discrete ("permission-denied" ∷ "failed-precondition" ∷ []) code
      then record {
        kind = cloud_access;
        retryable = false;
        message =
            "Cloud access for this library upgrade was rejected. Your cards are safe; an administrator must update Firebase access before this upgrade can continue.";
      }
      else if is_cloud_quota_error texts e
      then record {
        kind = temporary;
        retryable = true;
        message =
            "Firebase's daily read limit has been reached. Your cards are safe; this upgrade can resume after the quota resets.";
      }
      else record {
        kind = temporary;
        retryable = true;
        message =
            "The library upgrade could not finish. Your cards are safe; check your connection and retry.";
      }

  unfoldable pub get_legacy_migration_issue : LegacyFailure → LegacyMigrationIssue
  unfolding issue_field issue_of_code
  get_legacy_migration_issue e =
      if same text_discrete (issue_field e.reason) "identity-conflict"
      then record {
        kind = trusted_migration;
        retryable = false;
        message =
            "Some older cards need a secure one-time migration. Your cards are safe; this repair must run from the administrator migration tool.";
      }
      else issue_of_code e.thrown (without_firestore (issue_field e.code))

pub data LibraryStatus : Type 0 where
  idle adopting ready error : LibraryStatus

pub record LibrarySnapshot (Card : Type 0) : Type 0 where
  pub owner_id : Option String
  pub cards : List Card
  pub decks : List String
  pub legacy_pending : ℕ
  pub legacy_issue : Option LegacyMigrationIssue
  pub is_migrating_legacy : Bool
  pub status : LibraryStatus
  pub error_message : Option String

-- The calls of the cache that write, in their order.
pub data CacheWrite (Card : Type 0) : Type 0 where
  write_cards : (owner_id : String) → List Card → CacheWrite Card
  write_decks : (owner_id : String) → List String → CacheWrite Card
  discard_cards discard_decks : CacheWrite Card

pub record Adopted (Card : Type 0) : Type 0 where
  pub owner_id : String
  pub cards : List Card

-- A `Symbol` is the next of a counter. `deck_seed_requested` is the variable of the last activation:
-- those of earlier ones are read by no callback that passes its first check.
pub record OwnerLibrary (Card : Type 0) : Type 0 where
  pub snapshot : LibrarySnapshot Card
  pub generation : ℕ
  pub subscribed : Bool
  pub active_migration : Option ℕ
  pub current_cloud_total : ℕ
  pub legacy_refresh_token : Option ℕ
  pub pending_adopted : Option (Adopted Card)
  pub deck_seed_requested : Bool
  pub next_symbol : ℕ
  pub writes : List (CacheWrite Card)

-- `Number.isSafeInteger(x) && x > 0 ? Math.floor(x) : 0`
unfoldable pub positive_or_zero : Number → ℕ
positive_or_zero x = elim (safe_positive? x) [ none ↦ 0 | some n ↦ n ]

module _ {Card : Type 0} where
  abbrev pub empty_snapshot : LibrarySnapshot Card
  empty_snapshot = record {
    owner_id = none;
    cards = [];
    decks = [];
    legacy_pending = 0;
    legacy_issue = none;
    is_migrating_legacy = false;
    status = idle;
    error_message = none;
  }

  unfoldable pub is_active : OwnerLibrary Card → String → ℕ → Bool
  is_active s owner_id activation_generation =
      s.generation == activation_generation && same_user s.snapshot.owner_id (some owner_id)

  unfoldable pub stop : OwnerLibrary Card → OwnerLibrary Card
  stop s = record s {
    generation = s.generation + 1;
    active_migration = none;
    subscribed = false;
    snapshot = empty_snapshot;
  }

  -- What `activate` returns, to end that activation.
  unfoldable pub dispose : OwnerLibrary Card → String → ℕ → OwnerLibrary Card
  unfolding is_active stop
  dispose s owner_id activation_generation =
      if is_active s owner_id activation_generation then stop s else s

  unfoldable pub discard_cards_now : OwnerLibrary Card → OwnerLibrary Card
  discard_cards_now s = record s {
    pending_adopted = none;
    writes = s.writes ++ discard_cards ∷ [];
    snapshot = record s.snapshot { cards = [] };
  }

unfoldable pub create_owner_library_session_controller : (Card : Type 0) → OwnerLibrary Card
create_owner_library_session_controller Card = record {
  snapshot = empty_snapshot;
  generation = 0;
  subscribed = false;
  active_migration = none;
  current_cloud_total = 0;
  legacy_refresh_token = none;
  pending_adopted = none;
  deck_seed_requested = false;
  next_symbol = 0;
  writes = [];
}
