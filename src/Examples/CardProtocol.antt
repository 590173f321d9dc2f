-- ===== src/Examples/CardProtocol.antt =====
-- A card that is patched, with texts as scalars.
use flash_card.Prelude.{◌≤◌, ◌≡◌, ◌↔◌, refl, true, Option, none, some, List, [], ◌∷◌, String, ok}
use flash_card.Prelude.Text.{text_discrete}
use flash_card.Prelude.Number.{Number, nat}
use flash_card.Prelude.Keyed
use flash_card.CardProtocol.Values.{Value, scalar}
use flash_card.CardProtocol.Protocol.{
  Fields, CardData, MutationPrecondition, create, revision_conflict, safe_counter, bounded_counter,
  next_counter, mutable_card_fields, evaluate_mutation_precondition, select_field, select_fields,
  select_mutable_card_patch, assign, apply_card_patch, card_already_has_patch,
}
use flash_card.CardProtocol.Conflicts.{
  evaluate_mutation_precondition-accepts_iff, apply_card_patch-conflicts,
  card_already_has_patch-apply_card_patch,
}

abbrev card : CardData (Value String)
card = record {
  schema_version = some (nat 1);
  revision = some (nat 4);
  library_epoch = none;
  fields = ("word", scalar "dog") ∷ ("emoji", scalar "d") ∷ [];
}

abbrev changes : Fields (Value String)
changes = ("emoji", scalar "D") ∷ ("revision", scalar "9") ∷ ("category", scalar "animals") ∷ []

abbrev mask : List String
mask = "emoji" ∷ "revision" ∷ "word" ∷ []

abbrev patched : CardData (Value String)
patched = record {
  schema_version = some (nat 2);
  revision = some (nat 5);
  library_epoch = some (nat 0);
  fields = ("word", scalar "dog") ∷ ("emoji", scalar "D") ∷ [];
}

applied : apply_card_patch card changes mask ≡ ok patched
unfolding apply_card_patch next_counter bounded_counter select_mutable_card_patch select_fields
    select_field mutable_card_fields assign Keyed.get Keyed.put text_discrete
applied = refl

card_already_has_patch-apply_card_patch_example :
    card_already_has_patch text_discrete "" patched.fields changes mask ≡ true
card_already_has_patch-apply_card_patch_example =
    card_already_has_patch-apply_card_patch text_discrete "" card patched changes mask applied

-- Another tab made its mutation against revision 4 as well.
abbrev second_tab : MutationPrecondition
second_tab = record {
  mutation_epoch = none;
  current_library_epoch = some (nat 0);
  base_revision = some (nat 4);
  current_revision = some (nat 5);
  tombstone_revision = none;
  operation = none;
}

same_epoch : safe_counter second_tab.mutation_epoch ≡ safe_counter second_tab.current_library_epoch
unfolding safe_counter
same_epoch = refl

apply_card_patch-conflicts_example :
    evaluate_mutation_precondition second_tab ≡ some revision_conflict
apply_card_patch-conflicts_example =
    apply_card_patch-conflicts card patched changes mask second_tab applied same_epoch refl refl

-- A card that was deleted at revision 3 is created anew.
abbrev again : MutationPrecondition
again = record {
  mutation_epoch = some (nat 1);
  current_library_epoch = some (nat 1);
  base_revision = some (nat 3);
  current_revision = some (nat 3);
  tombstone_revision = some (some (nat 3));
  operation = some create;
}

evaluate_mutation_precondition-accepts_iff_example :
    (evaluate_mutation_precondition again ≡ none) ↔ (
      (safe_counter again.mutation_epoch ≡ safe_counter again.current_library_epoch)
      × (safe_counter again.base_revision ≡ safe_counter again.current_revision)
      × ((deletion : Option Number)
          → again.tombstone_revision ≡ some deletion
          → (again.operation ≡ some create)
            × (safe_counter deletion ≤ safe_counter again.base_revision)))
evaluate_mutation_precondition-accepts_iff_example =
    evaluate_mutation_precondition-accepts_iff again
