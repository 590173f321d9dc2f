-- ===== src/Examples/Library.antt =====
-- The library of one owner, on small inputs.
use flash_card.Prelude.{
  ◌≡◌, ◌≢◌, ◌<◌, ◌⊎◌, ◌↔◌, refl, true, false, none, some, [], ◌∷◌, ◌++◌, map, String, length,
  includes, arith,
}
use flash_card.Prelude.Text.{text_discrete, texts_differ}
use flash_card.Prelude.Number.{nat}
use flash_card.Library.CustomDecks.{
  DeckTexts, created, is_reserved_custom_deck_name, normalize_custom_deck_collection,
  plan_custom_deck_creation, max_custom_decks,
}
use flash_card.Library.DeckLaws.{IsDeckList, plan_custom_deck_creation-IsDeckList}
use flash_card.Library.State.{OwnerLibrary, create_owner_library_session_controller}
use flash_card.Library.Activation.{CachedLibrary, Activation, activate}
use flash_card.Library.Events.{Event, Setting, activated, stopped, decks_changed, step, run}
use flash_card.Library.Backup.{
  text, sync, operations, DeviceBackup, owned_by, resolve_device_backup_ownership, claims_of,
  claim_of_owner, claim_of_sync, claims_of_pending, claims_of_operations, add_owner_claim,
  judge_claims,
}
use flash_card.Library.Ownership.{
  Names, SyncNames, PendingNames, resolve_device_backup_ownership-sole,
}
use flash_card.Library.Late.{generation_of, ends_activation, late_callback_ignored}
use flash_card.Library.Owners.{MaySee, IsSameAdopter, activate-shows_own, step_keeps_adopter}

abbrev deck_texts : DeckTexts
deck_texts = record {
  without_separators = λ t. t;
  trim = λ t. t;
  slice_128 = λ t. t;
  normalize_nfkc = λ t. t;
  lower = λ t. t;
}

abbrev setting : Setting
setting = record {
  deck_texts = deck_texts;
  texts = record { lower = λ t. t; has = λ t part. false };
  issue_texts = record { lower = λ t. t; without_firestore = λ t. t };
  available = true;
}

plan_custom_deck_creation-IsDeckList_example :
    let plan = plan_custom_deck_creation deck_texts ("Animals" ∷ "Animals" ∷ []) "Food" in
    let old =
      normalize_custom_deck_collection deck_texts (some (map some ("Animals" ∷ "Animals" ∷ []))) in
    IsDeckList plan.decks
    × ((plan.status ≡ created) ↔ (
        (plan.name ≢ "")
        × (is_reserved_custom_deck_name deck_texts (some plan.name) ≡ false)
        × (includes text_discrete old plan.name ≡ false)
        × (length old < max_custom_decks)))
    × (plan.status ≡ created → plan.decks ≡ old ++ plan.name ∷ [])
    × (plan.status ≢ created → plan.decks ≡ old)
plan_custom_deck_creation-IsDeckList_example =
    plan_custom_deck_creation-IsDeckList deck_texts ("Animals" ∷ "Animals" ∷ []) "Food"

abbrev cached : CachedLibrary String
cached = record { cards_owner = none; cards = "dog" ∷ "cat" ∷ []; decks_owner = none; decks = [] }

abbrev activation : Activation String
activation = record {
  owner_id = "ann";
  generation = 1;
  visible_cards = "dog" ∷ "cat" ∷ [];
  decks_to_migrate = [];
  cloud_total = 2;
}

-- A session in which an owner has adopted two cards.
abbrev adopting : OwnerLibrary String
adopting = record (create_owner_library_session_controller String) {
  generation = 1;
  pending_adopted = some (record { owner_id = "ann"; cards = "dog" ∷ "cat" ∷ [] });
}

abbrev next_owner : Event String
next_owner = activated (some "bob") (nat 5) cached 4

abbrev late_decks : Event String
late_decks = decks_changed activation (some (some "Animals" ∷ []))

of_first : generation_of late_decks ≡ some 1
unfolding generation_of
of_first = refl

ends : ends_activation next_owner ≡ true
unfolding ends_activation
ends = refl

late_callback_ignored_example :
    let now = run setting adopting (next_owner ∷ stopped ∷ next_owner ∷ []) in
    (step setting now late_decks).snapshot ≡ now.snapshot
late_callback_ignored_example =
    late_callback_ignored setting adopting next_owner (stopped ∷ next_owner ∷ []) late_decks 1
      of_first (ground arith) ends

activate-shows_own_example :
    let after = (activate deck_texts true adopting (some "bob") (nat 5) cached 4).0 in
    (after.snapshot.owner_id ≡ some "bob")
    × (((after.snapshot.cards ≡ cached.cards) × MaySee adopting cached "bob")
        ⊎ (after.snapshot.cards ≡ []))
    × (MaySee adopting cached "bob" → after.snapshot.cards ≡ cached.cards)
activate-shows_own_example =
    activate-shows_own deck_texts true adopting "bob" (nat 5) cached 4 (texts_differ "bob" "" refl)

step_keeps_adopter_example :
    IsSameAdopter adopting.pending_adopted (step setting adopting next_owner).pending_adopted
step_keeps_adopter_example = step_keeps_adopter setting adopting next_owner

abbrev anns_backup : DeviceBackup
anns_backup = record {
  owner_user_id = some (text "ann");
  cloud_sync = sync (some (text "ann"));
  pending = operations (some (some (text "ann")) ∷ some none ∷ none ∷ []);
}

is_anns :
    (resolve_device_backup_ownership (λ t. 3) (some anns_backup)).owner_user_id ≡ owned_by "ann"
unfolding resolve_device_backup_ownership claims_of claim_of_owner claim_of_sync claims_of_pending
    claims_of_operations add_owner_claim judge_claims text_discrete
is_anns = refl

resolve_device_backup_ownership-sole_example :
    Names "ann" anns_backup.owner_user_id
    × SyncNames "ann" anns_backup.cloud_sync
    × PendingNames "ann" anns_backup.pending
resolve_device_backup_ownership-sole_example =
    resolve_device_backup_ownership-sole (λ t. 3) anns_backup "ann" is_anns
