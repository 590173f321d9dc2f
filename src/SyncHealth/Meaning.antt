-- ===== src/SyncHealth/Meaning.antt =====
-- What syncHealthModel.ts tells the user, against what is the case.
use flash_card.Prelude.{
  ℕ, ◌≡◌, ◌<◌, ◌⊎◌, ◌↔◌, inl, inr, true, false, Option, none, some, String, Option-cases, arith,
}
use flash_card.SyncHealth.Model.{
  SyncTexts, saved, needs_attention, SyncHealthInput, is_sync_error_retryable, shown_error,
  health_of_error, health_without_error, get_sync_health, CloudSyncEpoch, epoch_of,
  resolve_sync_epoch,
}

module _ (texts : SyncTexts) where
  -- What is shown is the case: busy is shown exactly during a synchronisation; 'saved' exactly if
  -- none runs, no error is shown and nothing is pending; an error that is not blank is shown, with
  -- its own text, whenever no synchronisation runs; and a retry is offered only while none runs, and
  -- only for an error that a retry may help with or for changes that are pending while the device is
  -- online.
  pub get_sync_health-truthful :
      (input : SyncHealthInput)
      → let h = get_sync_health texts input in
        ((h.busy ≡ true) ↔ (input.is_syncing ≡ true))
        × ((h.kind ≡ saved) ↔ (
            (input.is_syncing ≡ false)
            × (shown_error texts input.error ≡ none)
            × (input.pending_count ≡ 0)))
        × ((message : String)
            → input.is_syncing ≡ false
            → shown_error texts input.error ≡ some message
            → (h.kind ≡ needs_attention) × (h.message ≡ message))
        × (h.can_retry ≡ true
            → (input.is_syncing ≡ false)
              × (((message : String) × (shown_error texts input.error ≡ some message)
                    × (is_sync_error_retryable texts (some message) ≡ true))
                  ⊎ ((shown_error texts input.error ≡ none)
                      × (input.is_online ≡ true)
                      × (0 < input.pending_count))))
  unfolding get_sync_health health_of_error health_without_error
  get_sync_health-truthful input = elim (Option-cases (shown_error texts input.error)) [
    | inl no_error ↦ ground arith
    | inr (message, e) ↦ ground arith
  ]

-- The epoch that a synchronisation of an owner runs with is the verified or the rendered one and is
-- that owner's; and a verified epoch of the owner goes before any rendered one.
pub resolve_sync_epoch-own :
    (owner : String) (rendered verified : Option CloudSyncEpoch) (value : ℕ)
    → let own : CloudSyncEpoch = record { user_id = owner; value = value } in
      (resolve_sync_epoch owner rendered verified ≡ some value
        → (verified ≡ some own) ⊎ (rendered ≡ some own))
      × (verified ≡ some own → resolve_sync_epoch owner rendered verified ≡ some value)
unfolding resolve_sync_epoch epoch_of
resolve_sync_epoch-own owner none none value = ground arith
resolve_sync_epoch-own owner none (some v) value = ground arith
resolve_sync_epoch-own owner (some r) none value = ground arith
resolve_sync_epoch-own owner (some r) (some v) value = ground arith
