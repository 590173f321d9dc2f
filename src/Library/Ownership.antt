-- ===== src/Library/Ownership.antt =====
-- Whose a backup is taken to be by deviceBackupOwnership.ts.
use flash_card.Prelude.{
  ℕ, ◌≡◌, refl, Bool, true, false, Option, none, some, List, [], ◌∷◌, String, add, includes,
  includes-add, All, arith, ltb, subst, Bool-cases, inl, inr, ◌⊎◌, ◌||◌, ◌==◌, if◌then◌else◌,
}
use flash_card.Prelude.Text.{text_discrete}
use flash_card.Library.Backup.{
  Claim, null, no_text, text, CloudSync, no_sync, malformed_sync, sync, PendingBackup, no_pending,
  malformed_pending, operations, DeviceBackup, Claims, owned_by, add_owner_claim, claim_of_owner,
  claim_of_sync, claims_of_operations, claims_of_pending, claims_of, judge_claims,
  resolve_device_backup_ownership, is_explicit_guest,
}

-- A property names an owner: it is missing, or a text that is the owner's name.
abbrev pub Names : String → Option Claim → Type 0
Names owner none = Unit
Names owner (some null) = ⊥
Names owner (some no_text) = ⊥
Names owner (some (text value)) = value ≡ owner

-- The same of `cloudSync`, which must have its `userId`.
abbrev pub SyncNames : String → CloudSync → Type 0
SyncNames owner no_sync = Unit
SyncNames owner malformed_sync = ⊥
SyncNames owner (sync none) = ⊥
SyncNames owner (sync (some claim)) = Names owner (some claim)

abbrev pub OperationNames : String → Option (Option Claim) → Type 0
OperationNames owner none = Unit
OperationNames owner (some claim) = Names owner claim

abbrev pub PendingNames : String → PendingBackup → Type 0
PendingNames owner no_pending = Unit
PendingNames owner malformed_pending = ⊥
PendingNames owner (operations list) = All (OperationNames owner) list

-- Every one of the texts is the owner's name.
abbrev AreOwner : String → List String → Type 0
AreOwner owner owners = (id : String) → includes text_discrete owners id ≡ true → id ≡ owner

-- No conflict so far, and no owner but this one.
abbrev IsOnly : String → Claims → Type 0
IsOnly owner c = (c.conflicted ≡ false) × AreOwner owner c.owners

add-AreOwner :
    (owner value : String) (owners : List String)
    → AreOwner owner (add text_discrete value owners)
    → AreOwner owner owners × (value ≡ owner)
add-AreOwner owner value owners h = (
  λ id e. h id (ground (arith, includes-add text_discrete value id owners)),
  h value (ground (arith, includes-add text_discrete value value owners)),
)

module _ (length_of : String → ℕ) where
  add_owner_claim-IsOnly :
      (owner : String) (c : Claims) (claim : Claim)
      → IsOnly owner (add_owner_claim length_of c claim)
      → IsOnly owner c × Names owner (some claim)
  unfolding add_owner_claim
  add_owner_claim-IsOnly owner c null h = absurd (ground arith)
  add_owner_claim-IsOnly owner c no_text h = absurd (ground arith)
  add_owner_claim-IsOnly owner c (text value) h =
      elim (Bool-cases (length_of value == 0 || ltb 256 (length_of value))) [
        | inl refused ↦ absurd (ground arith)
        | inr taken ↦
            let all : AreOwner owner (add text_discrete value c.owners) =
              subst
                (λ b.
                  AreOwner owner
                    (if b
                      then record c { conflicted = true }
                      else record c { owners = add text_discrete value c.owners }).owners)
                taken h.1 in
            let split = add-AreOwner owner value c.owners all in ((ground arith, split.0), split.1)
      ]

  claim_of_owner-IsOnly :
      (owner : String) (c : Claims) (claim : Option Claim)
      → IsOnly owner (claim_of_owner length_of c claim)
      → IsOnly owner c × ((claim ≡ some null) ⊎ Names owner claim)
  unfolding claim_of_owner
  claim_of_owner-IsOnly owner c none h = (h, inr tt)
  claim_of_owner-IsOnly owner c (some null) h = (h, inl refl)
  claim_of_owner-IsOnly owner c (some no_text) h =
      absurd (add_owner_claim-IsOnly owner c no_text h).1
  claim_of_owner-IsOnly owner c (some (text value)) h =
      let split = add_owner_claim-IsOnly owner c (text value) h in (split.0, inr split.1)

  claim_of_sync-IsOnly :
      (owner : String) (c : Claims) (claim : CloudSync)
      → IsOnly owner (claim_of_sync length_of c claim)
      → IsOnly owner c × SyncNames owner claim
  unfolding claim_of_sync
  claim_of_sync-IsOnly owner c no_sync h = (h, tt)
  claim_of_sync-IsOnly owner c malformed_sync h = absurd (ground arith)
  claim_of_sync-IsOnly owner c (sync none) h = absurd (ground arith)
  claim_of_sync-IsOnly owner c (sync (some claim)) h = add_owner_claim-IsOnly owner c claim h

  claims_of_operations-IsOnly :
      (owner : String) (c : Claims) (list : List (Option (Option Claim)))
      → IsOnly owner (claims_of_operations length_of c list)
      → IsOnly owner c × All (OperationNames owner) list
  unfolding claims_of_operations
  claims_of_operations-IsOnly owner c [] h = (h, tt)
  claims_of_operations-IsOnly owner c (none ∷ rest) h =
      let split = claims_of_operations-IsOnly owner c rest h in (split.0, (tt, split.1))
  claims_of_operations-IsOnly owner c (some none ∷ rest) h =
      let split = claims_of_operations-IsOnly owner c rest h in (split.0, (tt, split.1))
  claims_of_operations-IsOnly owner c (some (some claim) ∷ rest) h =
      let split = claims_of_operations-IsOnly owner (add_owner_claim length_of c claim) rest h in
      let here = add_owner_claim-IsOnly owner c claim split.0 in (here.0, (here.1, split.1))

  claims_of_pending-IsOnly :
      (owner : String) (c : Claims) (pending : PendingBackup)
      → IsOnly owner (claims_of_pending length_of c pending)
      → IsOnly owner c × PendingNames owner pending
  unfolding claims_of_pending
  claims_of_pending-IsOnly owner c no_pending h = (h, tt)
  claims_of_pending-IsOnly owner c malformed_pending h = absurd (ground arith)
  claims_of_pending-IsOnly owner c (operations list) h = claims_of_operations-IsOnly owner c list h

  judged_parts :
      (conflicted : Bool) (owners : List String) (is_guest : Bool) (owner : String)
      → let c : Claims = record { owners = owners; conflicted = conflicted } in
        (judge_claims length_of c is_guest).owner_user_id ≡ owned_by owner
        → (conflicted ≡ false) × AreOwner owner owners × (is_guest ≡ false)
  unfolding judge_claims
  judged_parts conflicted [] is_guest owner h = absurd (ground arith)
  judged_parts conflicted (x ∷ []) is_guest owner h =
      (ground arith, λ id e. ground arith, ground arith)
  judged_parts conflicted (x ∷ y ∷ rest) is_guest owner h = absurd (ground arith)

  judged_owner :
      (c : Claims) (is_guest : Bool) (owner : String)
      → (judge_claims length_of c is_guest).owner_user_id ≡ owned_by owner
      → IsOnly owner c × (is_guest ≡ false)
  judged_owner c is_guest owner h =
      let parts = judged_parts c.conflicted c.owners is_guest owner h in
      ((parts.0, parts.1), parts.2)

  -- A backup is taken to be an owner's only if its own owner, where it has that property, and the
  -- owner of its synchronisation, where it has one, and of each of its pending operations that names
  -- one, are all that owner; a backup that is marked as a guest's is nobody's.
  pub resolve_device_backup_ownership-sole :
      (b : DeviceBackup) (owner : String)
      → (resolve_device_backup_ownership length_of (some b)).owner_user_id ≡ owned_by owner
      → Names owner b.owner_user_id × SyncNames owner b.cloud_sync × PendingNames owner b.pending
  unfolding resolve_device_backup_ownership claims_of
  resolve_device_backup_ownership-sole b owner h =
      let judged =
        judged_owner (claims_of length_of b) (is_explicit_guest b.owner_user_id) owner h in
      let pending = claims_of_pending-IsOnly owner _ b.pending judged.0 in
      let synced = claim_of_sync-IsOnly owner _ b.cloud_sync pending.0 in
      let owned = claim_of_owner-IsOnly owner _ b.owner_user_id synced.0 in
      (ground (arith, owned.1, judged.1), synced.1, pending.1)
