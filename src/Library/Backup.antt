-- ===== src/Library/Backup.antt =====
-- src/lib/deviceBackupOwnership.ts: whose a backup of a device is. A backup is a value of unknown
-- kind; of each property that counts, what the code can tell of it is given.
use flash_card.Prelude.{
  ℕ, Bool, true, false, ◌&&◌, ◌||◌, Option, none, some, List, [], ◌∷◌, String, add, ltb, length,
  ◌==◌, if◌then◌else◌,
}
use flash_card.Prelude.Text.{text_discrete}

-- A claim to be the owner: `null`, a text, or a value of another kind.
pub data Claim : Type 0 where
  null no_text : Claim
  text : String → Claim

-- `cloudSync`: null or undefined, not an object, or an object with its `userId`, if it has one.
pub data CloudSync : Type 0 where
  no_sync malformed_sync : CloudSync
  sync : Option Claim → CloudSync

-- `pending`: undefined, not an array, or an array, whose elements that are no objects are `none` and
-- of the others their `ownerUserId`, if they have one.
pub data PendingBackup : Type 0 where
  no_pending malformed_pending : PendingBackup
  operations : List (Option (Option Claim)) → PendingBackup

pub record DeviceBackup : Type 0 where
  pub owner_user_id : Option Claim
  pub cloud_sync : CloudSync
  pub pending : PendingBackup

-- `ownerUserId`: undefined, null or a text.
pub data BackupOwner : Type 0 where
  unknown_owner guest : BackupOwner
  owned_by : String → BackupOwner

pub record DeviceBackupOwnership : Type 0 where
  pub owner_user_id : BackupOwner
  pub conflicted : Bool

-- The variables of `resolveDeviceBackupOwnership`.
pub record Claims : Type 0 where
  pub owners : List String
  pub conflicted : Bool

abbrev pub is_explicit_guest : Option Claim → Bool
is_explicit_guest (some null) = true
is_explicit_guest _ = false

module _ (length_of : String → ℕ) where
  -- `addOwnerClaim`, where a claim that is refused makes a conflict.
  unfoldable pub add_owner_claim : Claims → Claim → Claims
  add_owner_claim c null = record c { conflicted = true }
  add_owner_claim c no_text = record c { conflicted = true }
  add_owner_claim c (text value) =
      if length_of value == 0 || ltb 256 (length_of value)
      then record c { conflicted = true }
      else record c { owners = add text_discrete value c.owners }

  unfoldable pub claim_of_owner : Claims → Option Claim → Claims
  claim_of_owner c none = c
  claim_of_owner c (some null) = c
  claim_of_owner c (some no_text) = add_owner_claim c no_text
  claim_of_owner c (some (text value)) = add_owner_claim c (text value)

  unfoldable pub claim_of_sync : Claims → CloudSync → Claims
  claim_of_sync c no_sync = c
  claim_of_sync c malformed_sync = record c { conflicted = true }
  claim_of_sync c (sync none) = record c { conflicted = true }
  claim_of_sync c (sync (some claim)) = add_owner_claim c claim

  unfoldable pub claims_of_operations : Claims → List (Option (Option Claim)) → Claims
  claims_of_operations c [] = c
  claims_of_operations c (none ∷ rest) = claims_of_operations c rest
  claims_of_operations c (some none ∷ rest) = claims_of_operations c rest
  claims_of_operations c (some (some claim) ∷ rest) =
      claims_of_operations (add_owner_claim c claim) rest

  unfoldable pub claims_of_pending : Claims → PendingBackup → Claims
  claims_of_pending c no_pending = c
  claims_of_pending c malformed_pending = record c { conflicted = true }
  claims_of_pending c (operations list) = claims_of_operations c list

  unfoldable pub claims_of : DeviceBackup → Claims
  claims_of b =
      let start : Claims = record { owners = []; conflicted = false } in
      claims_of_pending (claim_of_sync (claim_of_owner start b.owner_user_id) b.cloud_sync)
        b.pending

  -- The end of `resolveDeviceBackupOwnership`.
  unfoldable pub judge_claims : Claims → (explicit_guest : Bool) → DeviceBackupOwnership
  judge_claims c explicit_guest =
      if c.conflicted || ltb 1 (length c.owners) || (explicit_guest && ltb 0 (length c.owners))
      then record { owner_user_id = unknown_owner; conflicted = true }
      else if explicit_guest
      then record { owner_user_id = guest; conflicted = false }
      else record {
        owner_user_id = elim c.owners [ [] ↦ unknown_owner | owner ∷ rest ↦ owned_by owner ];
        conflicted = false;
      }

  -- `none` is a value that is not an object.
  unfoldable pub resolve_device_backup_ownership : Option DeviceBackup → DeviceBackupOwnership
  resolve_device_backup_ownership none = record {
    owner_user_id = unknown_owner;
    conflicted = false;
  }
  resolve_device_backup_ownership (some b) =
      judge_claims (claims_of b) (is_explicit_guest b.owner_user_id)

-- A collection of a stored backup: missing, not an array, or an array of a length.
pub data Collection : Type 0 where
  missing malformed : Collection
  array : ℕ → Collection

-- A stored value: undefined, not an object, or an object with its collections, and whether it has a
-- total other than 0.
pub data StoredBackup : Type 0 where
  undefined no_object : StoredBackup
  backup : (cards items pending : Collection) → (has_total : Bool) → StoredBackup

abbrev pub collection_has_data_or_is_malformed : Collection → Bool
collection_has_data_or_is_malformed missing = false
collection_has_data_or_is_malformed malformed = true
collection_has_data_or_is_malformed (array n) = ltb 0 n

unfoldable pub device_backup_has_stored_data : StoredBackup → Bool
device_backup_has_stored_data undefined = false
device_backup_has_stored_data no_object = true
device_backup_has_stored_data (backup cards items pending has_total) =
    collection_has_data_or_is_malformed cards
    || collection_has_data_or_is_malformed items
    || collection_has_data_or_is_malformed pending
    || has_total
