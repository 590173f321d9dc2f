-- ===== src/Gamification/Operations.antt =====
-- Pending operations of gamificationModel.ts, as they are stored and as they are kept.
use flash_card.Prelude.{
  ℕ, Bool, true, false, not, ◌&&◌, ◌||◌, Option, none, some, List, [], ◌∷◌, ◌++◌, map, String, same,
  includes, is_some, leb, length, if◌then◌else◌,
}
use flash_card.Prelude.Text.{text_discrete}
use flash_card.Prelude.Keyed.{get}
use flash_card.Prelude.Number.{Number, safe_natural?}
use flash_card.Gamification.Values.{
  XpTexts, max_pending_xp_operations, valid_xp_delta, valid_xp_operation_sequence,
  valid_operation_id, valid_xp_client_id, create_structured_xp_operation_id, valid_history_day,
}

-- A stored operation: a property that is not a text is `none`, and one that may be missing is an
-- option of that.
pub record StoredXpOperation : Type 0 where
  pub id : Option String
  pub delta : Number
  pub day : Option String
  pub client_id : Option (Option String)
  pub sequence : Option Number
  pub legacy_id : Option (Option String)

-- An operation, with its client and its sequence where it has them.
pub record PendingXpOperation : Type 0 where
  pub id : String
  pub delta : Number
  pub day : String
  pub stream : Option (String × Number)
  pub legacy_id : Option String

-- The metadata of the protocol, where both parts have the right kind; none at all is right, too.
unfoldable pub read_stream :
    Option (Option String) → Option Number → Option (Option (String × Number))
read_stream none none = some none
read_stream (some (some client_id)) (some sequence) = some (some (client_id, sequence))
read_stream _ _ = none

unfoldable pub read_legacy_id : Option (Option String) → Option (Option String)
read_legacy_id none = some none
read_legacy_id (some none) = none
read_legacy_id (some (some value)) = some (some value)

-- All the parts, or nothing.
unfoldable pub join_parts :
    Option String
    → Number
    → Option String
    → Option (Option (String × Number))
    → Option (Option String)
    → Option PendingXpOperation
join_parts (some id) delta (some day) (some stream) (some legacy_id) =
    some (record { id = id; delta = delta; day = day; stream = stream; legacy_id = legacy_id })
join_parts _ delta _ _ _ = none

unfoldable pub read_operation : StoredXpOperation → Option PendingXpOperation
unfolding join_parts read_stream read_legacy_id
read_operation s =
    join_parts s.id s.delta s.day (read_stream s.client_id s.sequence) (read_legacy_id s.legacy_id)

unfoldable pub client_of : Option (String × Number) → Option (Option String)
client_of none = none
client_of (some e) = some (some e.0)

unfoldable pub sequence_of : Option (String × Number) → Option Number
sequence_of none = none
sequence_of (some e) = some e.1

unfoldable pub legacy_of : Option String → Option (Option String)
legacy_of none = none
legacy_of (some value) = some (some value)

-- An operation as a value of unknown kind, which the normalisation of a kept list reads.
unfoldable pub store_operation : PendingXpOperation → StoredXpOperation
unfolding client_of sequence_of legacy_of
store_operation op = record {
  id = some op.id;
  delta = op.delta;
  day = some op.day;
  client_id = client_of op.stream;
  sequence = sequence_of op.stream;
  legacy_id = legacy_of op.legacy_id;
}

abbrev pub ids_of : List PendingXpOperation → List String
ids_of operations = map (λ op. op.id) operations

module _ (texts : XpTexts) where
  open texts use {show}

  unfoldable pub is_structured_stream : String → Option (String × Number) → Bool
  is_structured_stream id none = false
  is_structured_stream id (some e) =
      valid_xp_client_id texts e.0
      && valid_xp_operation_sequence e.1
      && same text_discrete id (create_structured_xp_operation_id texts e.0 e.1)

  -- A missing legacy identifier is right, too.
  unfoldable pub valid_legacy_id : String → Option String → Bool
  valid_legacy_id id none = true
  valid_legacy_id id (some value) =
      valid_operation_id texts value && not (same text_discrete value id)

  unfoldable pub is_valid_operation : PendingXpOperation → Bool
  unfolding is_structured_stream valid_legacy_id
  is_valid_operation op =
      valid_operation_id texts op.id
      && valid_xp_delta op.delta
      && valid_history_day texts op.day
      && (not (is_some op.stream) || is_structured_stream op.id op.stream)
      && valid_legacy_id op.id op.legacy_id

  -- The operation that a candidate is, where it is one and is new. A candidate that is not an object
  -- is `none`; the identifiers seen are those of the operations kept.
  unfoldable pub accept_candidate :
      List PendingXpOperation → Option StoredXpOperation → Option PendingXpOperation
  accept_candidate kept none = none
  accept_candidate kept (some candidate) = elim (read_operation candidate) [
    | none ↦ none
    | some op ↦
        if is_valid_operation op && not (includes text_discrete (ids_of kept) op.id)
        then some op
        else none
  ]

  -- The loop of `normalizePendingXpOperations`.
  unfoldable pub collect_operations :
      ℕ → List PendingXpOperation → List (Option StoredXpOperation) → List PendingXpOperation
  collect_operations maximum kept [] = kept
  collect_operations maximum kept (candidate ∷ candidates) =
      let skipped = collect_operations maximum kept candidates in
      elim (accept_candidate kept candidate) [
        | none ↦ skipped
        | some op ↦
            let next = kept ++ op ∷ [] in
            let rest = collect_operations maximum next candidates in
            if leb maximum (length next) then next else rest
      ]

  -- With the default maximum. `none` is a value that is not an array.
  unfoldable pub normalize_pending_xp_operations :
      Option (List (Option StoredXpOperation)) → List PendingXpOperation
  normalize_pending_xp_operations none = []
  normalize_pending_xp_operations (some value) =
      collect_operations max_pending_xp_operations [] value

  unfoldable pub is_structured_xp_operation : PendingXpOperation → Bool
  unfolding is_structured_stream
  is_structured_xp_operation op = is_structured_stream op.id op.stream

  -- `sequence <= (appliedSequenceByClient[clientId] ?? 0)`, of two valid sequences
  unfoldable pub is_within : Option (String × Number) → List (String × Number) → Bool
  is_within none applied_sequence_by_client = false
  is_within (some e) applied_sequence_by_client =
      elim (get text_discrete e.0 applied_sequence_by_client) [
        | none ↦ false
        | some applied ↦ elim (safe_natural? e.1) [
          | none ↦ false
          | some n ↦ elim (safe_natural? applied) [ none ↦ false | some m ↦ leb n m ]
        ]
      ]

  unfoldable pub is_applied_xp_operation :
      PendingXpOperation → List String → List (String × Number) → Bool
  unfolding is_structured_xp_operation is_within
  is_applied_xp_operation op applied_operation_ids applied_sequence_by_client =
      includes text_discrete applied_operation_ids op.id
      || (is_structured_xp_operation op && is_within op.stream applied_sequence_by_client)

  -- The loop of `normalizeAppliedXpOperationIds`, from the last value to the first: what it keeps of
  -- the values, in their order. A value that is not a text is `none`.
  unfoldable pub collect_ids : ℕ → List (Option String) → List String
  collect_ids maximum [] = []
  collect_ids maximum (none ∷ values) = collect_ids maximum values
  collect_ids maximum (some id ∷ values) =
      let later = collect_ids maximum values in
      if leb maximum (length later)
        || not (valid_operation_id texts id)
        || includes text_discrete later id
      then later
      else id ∷ later

  unfoldable pub normalize_applied_xp_operation_ids : Option (List (Option String)) → List String
  normalize_applied_xp_operation_ids none = []
  normalize_applied_xp_operation_ids (some value) = collect_ids max_pending_xp_operations value
