-- ===== src/Examples/Gamification.antt =====
-- Pending experience points, on small inputs.
use flash_card.Prelude.{◌≡◌, refl, true, none, some, Option, List, [], ◌∷◌, String, arith}
use flash_card.Prelude.Text.{text_discrete}
use flash_card.Prelude.Number.{Number, nat, negative}
use flash_card.Gamification.Values.{
  XpTexts, finite_non_negative_gamification_value, valid_operation_id, valid_xp_delta,
  valid_history_day, normalize_applied_xp_sequence_by_client, add_delta,
}
use flash_card.Gamification.Operations.{
  collect_operations, accept_candidate, read_operation, join_parts, read_stream, read_legacy_id,
  is_valid_operation, valid_legacy_id, is_applied_xp_operation, is_structured_xp_operation,
  is_structured_stream, is_within, normalize_applied_xp_operation_ids, collect_ids, client_of,
  sequence_of, legacy_of, StoredXpOperation, PendingXpOperation, normalize_pending_xp_operations,
  store_operation,
}
use flash_card.Gamification.Rebase.{
  StoredSnapshot, unapplied, apply_pending_xp_operations, apply_operations,
  rebase_gamification_snapshots,
}
use flash_card.Gamification.Normal.{IsPendingList, stored, normalize_pending_xp_operations-stored}

abbrev texts : XpTexts
texts = record {
  length_of = λ t. 5;
  is_operation_text = λ t. true;
  is_client_text = λ t. true;
  show = λ n. "1";
  parse_date = λ t. some 1;
}

abbrev stored_operation : String → Number → StoredXpOperation
stored_operation id delta = record {
  id = some id;
  delta = delta;
  day = some "Nov 25, 2026";
  client_id = none;
  sequence = none;
  legacy_id = none;
}

abbrev waiting : List (Option StoredXpOperation)
waiting =
    some (stored_operation "op1" (nat 10))
    ∷ some (stored_operation "op2" (negative 3))
    ∷ some (stored_operation "op1" (nat 10))
    ∷ none
    ∷ []

abbrev on_device : StoredSnapshot
on_device = record {
  streak = nat 2;
  xp = nat 30;
  last_active = some "Wed Nov 25 2026";
  history = none;
  pending_operations = some waiting;
  applied_operation_ids = none;
  applied_operation_sequence_by_client = none;
}

abbrev in_cloud : List (Option String) → StoredSnapshot
in_cloud ids = record {
  streak = nat 1;
  xp = nat 34;
  last_active = none;
  history = none;
  pending_operations = none;
  applied_operation_ids = some ids;
  applied_operation_sequence_by_client = none;
}

counted : (rebase_gamification_snapshots texts on_device (in_cloud (some "op1" ∷ []))).xp ≡ 30
unfolding rebase_gamification_snapshots unapplied normalize_pending_xp_operations collect_operations
    accept_candidate read_operation join_parts read_stream read_legacy_id is_valid_operation
    valid_legacy_id valid_operation_id valid_xp_delta valid_history_day is_applied_xp_operation
    is_structured_xp_operation is_structured_stream is_within normalize_applied_xp_operation_ids
    collect_ids normalize_applied_xp_sequence_by_client apply_pending_xp_operations apply_operations
    store_operation client_of sequence_of legacy_of add_delta finite_non_negative_gamification_value
    text_discrete
counted = refl

abbrev kept : List PendingXpOperation
kept =
    record {
      id = "op1";
      delta = nat 10;
      day = "Nov 25, 2026";
      stream = none;
      legacy_id = some "old1";
    }
    ∷ []

kept-IsPendingList : IsPendingList texts kept
unfolding rebase_gamification_snapshots unapplied normalize_pending_xp_operations collect_operations
    accept_candidate read_operation join_parts read_stream read_legacy_id is_valid_operation
    valid_legacy_id valid_operation_id valid_xp_delta valid_history_day is_applied_xp_operation
    is_structured_xp_operation is_structured_stream is_within normalize_applied_xp_operation_ids
    collect_ids normalize_applied_xp_sequence_by_client apply_pending_xp_operations apply_operations
    store_operation client_of sequence_of legacy_of add_delta finite_non_negative_gamification_value
    text_discrete
kept-IsPendingList = record {
  all_valid = (refl, tt);
  each_once = (refl, tt);
  bounded = omega arith;
}

normalize_pending_xp_operations-stored_example :
    normalize_pending_xp_operations texts (some (stored texts kept)) ≡ kept
normalize_pending_xp_operations-stored_example =
    normalize_pending_xp_operations-stored texts kept kept-IsPendingList
