-- ===== src/Examples/SyncHealth.antt =====
-- The health of a synchronisation, on small inputs.
use flash_card.Prelude.{◌≡◌, ◌<◌, ◌⊎◌, ◌↔◌, true, false, none, some, String, same}
use flash_card.Prelude.Text.{text_discrete}
use flash_card.SyncHealth.Model.{
  SyncTexts, SyncHealthInput, saved, needs_attention, is_sync_error_retryable, shown_error,
  get_sync_health, CloudSyncEpoch,
}
use flash_card.SyncHealth.Meaning.{get_sync_health-truthful}

abbrev texts : SyncTexts
texts = record {
  show = λ n. "some";
  trim = λ t. t;
  lower = λ t. t;
  has = λ t part. same text_discrete t part;
  without_service = λ t. t;
}

abbrev input : SyncHealthInput
input = record { is_online = true; is_syncing = false; pending_count = 2; error = some "timeout" }

get_sync_health-truthful_example :
    let h = get_sync_health texts input in
    ((h.busy ≡ true) ↔ (input.is_syncing ≡ true))
    × ((h.kind ≡ saved) ↔ (
        (input.is_syncing ≡ false)
        × (shown_error texts input.error ≡ none)
        × (input.pending_count ≡ 0)))
    × ((message : String)
        → input.is_syncing ≡ false
        → shown_error texts input.error ≡ some message
        → (h.kind ≡ needs_attention) × (h.message ≡ message))
    × (h.can_retry ≡ true
        → (input.is_syncing ≡ false)
          × (((message : String) × (shown_error texts input.error ≡ some message)
                × (is_sync_error_retryable texts (some message) ≡ true))
              ⊎ ((shown_error texts input.error ≡ none)
                  × (input.is_online ≡ true)
                  × (0 < input.pending_count))))
get_sync_health-truthful_example = get_sync_health-truthful texts input

abbrev of_ann : CloudSyncEpoch
of_ann = record { user_id = "ann"; value = 4 }

abbrev of_bob : CloudSyncEpoch
of_bob = record { user_id = "bob"; value = 7 }
