-- ===== src/SyncHealth/Model.antt =====
-- The functions of syncHealthModel.ts. A count of pending operations is a natural number, as
-- `countPendingSyncOperations` gives it. The text functions of the platform are parameters.
use Prim.Native.String.{◌++◌ as join}
use flash_card.Prelude.{
  ℕ, Bool, true, false, not, ◌&&◌, ◌||◌, Option, none, some, List, [], ◌∷◌, String, length, keep,
  any, same, includes, ltb, ◌==◌, if◌then◌else◌,
}
use flash_card.Prelude.Text.{text_discrete}
use flash_card.Identity.CloudError.{Field, field_text, firestore_daily_read_limit_message}

-- `String(n)`, `trim`, `toLowerCase`, `text.includes(part)`, and `replace` of a leading name of a
-- service, `/^(firestore|functions|appcheck|app-check)\//`, by nothing.
pub record SyncTexts : Type 0 where
  pub show : ℕ → String
  pub trim : String → String
  pub lower : String → String
  pub has : (text part : String) → Bool
  pub without_service : String → String

pub data SyncHealthKind : Type 0 where
  saved saving_offline queued syncing needs_attention : SyncHealthKind

pub record SyncHealthInput : Type 0 where
  pub is_online : Bool
  pub is_syncing : Bool
  pub pending_count : ℕ
  pub error : Option String

pub record SyncHealthState : Type 0 where
  pub kind : SyncHealthKind
  pub label : String
  pub message : String
  pub busy : Bool
  pub can_retry : Bool

pub record CloudSyncEpoch : Type 0 where
  pub user_id : String
  pub value : ℕ

unfoldable pub can_attempt_cloud_sync : (backoff_active manual_retry : Bool) → Bool
can_attempt_cloud_sync backoff_active manual_retry = manual_retry || not backoff_active

-- `epoch?.userId === ownerUserId`, with its value
unfoldable pub epoch_of : String → Option CloudSyncEpoch → Option ℕ
epoch_of owner_user_id none = none
epoch_of owner_user_id (some e) =
    if same text_discrete e.user_id owner_user_id then some e.value else none

unfoldable pub resolve_sync_epoch :
    (owner_user_id : String) (rendered_epoch verified_epoch : Option CloudSyncEpoch) → Option ℕ
unfolding epoch_of
resolve_sync_epoch owner_user_id rendered_epoch verified_epoch =
    elim (epoch_of owner_user_id verified_epoch) [
      | some value ↦ some value
      | none ↦ epoch_of owner_user_id rendered_epoch
    ]

-- Whether an operation, given by its `ownerUserId`, is the user's.
abbrev pub is_owned_by : String → Option String → Bool
is_owned_by active_user_id none = false
is_owned_by active_user_id (some owner) = same text_discrete owner active_user_id

unfoldable pub count_pending_sync_operations : List (Option String) → String → ℕ
count_pending_sync_operations operations active_user_id =
    length (keep (is_owned_by active_user_id) operations)

-- A thrown value: whether it is an `Error`, its name then, whether it is a `TypeError`, its code.
pub record SyncFailure : Type 0 where
  pub is_error : Bool
  pub name : String
  pub is_type_error : Bool
  pub code : Field

abbrev pub unreachable_message : String
unreachable_message =
    "Cloud is temporarily unreachable. Your changes are safe on this device and will retry automatically."

abbrev pub blocked_message : String
blocked_message =
    "Another SonFlash tab is blocking local sync storage. Close other SonFlash tabs, then retry syncing. Your changes remain safe on this device."

abbrev pub denied_message : String
denied_message =
    "Cloud access was denied. Your changes are safe on this device; sign in again or ask the app administrator to update Firebase access, then retry."

abbrev pub out_of_sync_message : String
out_of_sync_message =
    "This app and its cloud configuration are out of sync. Your changes are safe; update the cloud configuration, then retry."

module _ (texts : SyncTexts) where
  open texts use {show, trim, lower, has, without_service}

  -- The messages by code, where one has its own.
  unfoldable pub message_of_code : SyncFailure → String → String
  message_of_code e code =
      if includes text_discrete ("permission-denied" ∷ "unauthenticated" ∷ []) code
      then denied_message
      else if includes text_discrete
          ("unavailable" ∷ "deadline-exceeded" ∷ "network-request-failed" ∷ "initial-throttle"
            ∷ "fetch-status-error" ∷ [])
          code
      then unreachable_message
      else if same text_discrete code "resource-exhausted"
      then firestore_daily_read_limit_message
      else if same text_discrete code "failed-precondition"
      then out_of_sync_message
      else if e.is_type_error || (e.is_error && same text_discrete e.name "OperationTimeoutError")
      then unreachable_message
      else "Sync is temporarily unavailable. Your changes are still safe on this device."

  unfoldable pub get_sync_error_message : SyncFailure → String
  unfolding message_of_code
  get_sync_error_message e =
      if e.is_error && same text_discrete e.name "PendingOperationStoreBlockedError"
      then blocked_message
      else message_of_code e (without_service (lower (field_text e.code)))

  unfoldable pub is_sync_error_retryable : Option String → Bool
  is_sync_error_retryable none = false
  is_sync_error_retryable (some message) =
      let normalized = lower (trim message) in
      if same text_discrete normalized ""
      then false
      else not (
          any (has normalized) (
            "cloud sync is not configured" ∷ "cloud access was denied"
            ∷ "cloud configuration are out of sync"
            ∷ "app check or access rules need administrator attention" ∷ []))

  unfoldable pub change_label : ℕ → String
  change_label count = join (show count) (join " " (if count == 1 then "change" else "changes"))

  -- `error?.trim()`, where it is not empty
  unfoldable pub shown_error : Option String → Option String
  shown_error none = none
  shown_error (some error) = if same text_discrete (trim error) "" then none else some (trim error)

  unfoldable pub health_of_error : String → SyncHealthState
  unfolding is_sync_error_retryable
  health_of_error message = record {
    kind = needs_attention;
    label = "Needs attention";
    message = message;
    busy = false;
    can_retry = is_sync_error_retryable (some message);
  }

  unfoldable pub health_without_error : SyncHealthInput → SyncHealthState
  unfolding change_label
  health_without_error input =
      let count = input.pending_count in
      if not input.is_online && ltb 0 count && not input.is_syncing
      then record {
        kind = saving_offline;
        label = "Saving offline";
        message =
            join (change_label count) " are safe on this device and will sync when you reconnect.";
        busy = false;
        can_retry = false;
      }
      else if input.is_syncing
      then record {
        kind = syncing;
        label = "Syncing";
        message =
            if ltb 0 count
            then join "Syncing " (join (change_label count) " to your library.")
            else "Checking your library for changes.";
        busy = true;
        can_retry = false;
      }
      else if ltb 0 count
      then record {
        kind = queued;
        label = "Waiting to sync";
        message = join (change_label count) (
            join (if count == 1 then " is" else " are")
              " safe on this device and waiting to sync.");
        busy = false;
        can_retry = true;
      }
      else record {
        kind = saved;
        label = "Saved";
        message =
            if input.is_online
            then "All changes are saved."
            else "Your library is available offline.";
        busy = false;
        can_retry = false;
      }

  unfoldable pub get_sync_health : SyncHealthInput → SyncHealthState
  get_sync_health input = elim (shown_error input.error) [
    | none ↦ health_without_error input
    | some message ↦
        if input.is_syncing then health_without_error input else health_of_error message
  ]
