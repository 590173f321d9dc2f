-- ===== src/DeviceSync/Operations.antt =====
-- `DevicePendingOperation` and `mergePendingOperations` of src/lib/deviceSync.ts, and the owner's
-- scope of an operation. A time `updatedAt` is the instant that its canonical ISO text stands for:
-- texts of that one form compare as their instants, by `localeCompare` and by `>=`. A field's value
-- is any `V`; a card is its id and its fields.
use Prim.Native.String.{◌++◌ as join}
use flash_card.Prelude.{
  ℕ, Bool, true, false, not, ◌&&◌, ◌||◌, Option, none, some, List, [], ◌∷◌, ◌++◌, map, String, same,
  keep, includes, add_all, leb, if◌then◌else◌,
}
use flash_card.Prelude.Text.{text_discrete}
use flash_card.Prelude.Keyed
use flash_card.Prelude.Sorting
use flash_card.CardProtocol.Protocol.{CardMutationKind, review, Fields, mutable_card_fields}

pub record CardData (V : Type 0) : Type 0 where
  pub id : String
  pub fields : Fields V

pub data Body (V : Type 0) : Type 0 where
  upserts : CardData V → Body V
  patches : (card_id : String) → Fields V → Body V
  deletes : (card_id : String) → Body V

pub record DevicePendingOperation (V : Type 0) : Type 0 where
  pub op_id : Option String
  pub operation : Option CardMutationKind
  pub base_revision : Option ℕ
  pub field_mask : Option (List String)
  pub library_epoch : Option ℕ
  pub updated_at : ℕ
  pub owner_user_id : Option String
  pub review_xp : Option ℕ
  pub body : Body V

abbrev pub is_review : Option CardMutationKind → Bool
is_review (some review) = true
is_review _ = false

abbrev pub Queues : Type 0 → Type 0
Queues V = List (String × List (DevicePendingOperation V))

owner_text : Option String → String
owner_text none = ""
owner_text (some owner) = owner

module _ {V : Type 0} where
  unfoldable pub target_of : Body V → String
  target_of (upserts card) = card.id
  target_of (patches card_id fields) = card_id
  target_of (deletes card_id) = card_id

  unfoldable pub operation_target : DevicePendingOperation V → String
  unfolding target_of
  operation_target op = target_of op.body

  -- `${operation.ownerUserId ?? ''}:${operationTarget(operation)}`
  unfoldable pub queue_key : DevicePendingOperation V → String
  unfolding owner_text
  queue_key op = join (owner_text op.owner_user_id) (join ":" (operation_target op))

  abbrev pub keys : Fields V → List String
  keys = map (λ e. e.0)

  -- `operationFieldMask`: the own fields that may be changed.
  unfoldable pub operation_field_mask : Fields V → List String
  operation_field_mask fields =
      keep (λ k. includes text_discrete mutable_card_fields k) (keys fields)

  -- `{ ...first, ...second }`
  unfoldable pub spread : Fields V → Fields V → Fields V
  spread first [] = first
  spread first ((k, v) ∷ second) = spread (Keyed.put text_discrete k v first) second

  -- The mask of a patch, which is `operationFieldMask` of its fields where none is given.
  unfoldable pub mask_of : DevicePendingOperation V → Fields V → List String
  mask_of op fields = elim op.field_mask [ some mask ↦ mask | none ↦ operation_field_mask fields ]

  unfoldable pub merged_mask :
      DevicePendingOperation V
      → Fields V
      → DevicePendingOperation V
      → Fields V
      → Option (List String)
  unfolding mask_of
  merged_mask existing fields op more = elim existing.field_mask [
    | some mask ↦ some (add_all text_discrete [] (mask ++ mask_of op more))
    | none ↦ elim op.field_mask [
      | some mask ↦ some (add_all text_discrete [] (operation_field_mask fields ++ mask))
      | none ↦ none
    ]
  ]

  -- Two patches as one, under the metadata of the later.
  unfoldable pub fold_patches :
      DevicePendingOperation V
      → Fields V
      → DevicePendingOperation V
      → String
      → Fields V
      → DevicePendingOperation V
  fold_patches existing fields op card_id more = record op {
    body = patches card_id (spread fields more);
    field_mask = elim (merged_mask existing fields op more) [
      | none ↦ op.field_mask
      | some mask ↦ some mask
    ];
  }

  -- `commands.at(-1)`
  unfoldable pub last? : List (DevicePendingOperation V) → Option (DevicePendingOperation V)
  last? [] = none
  last? (x ∷ []) = some x
  last? (x ∷ y ∷ xs) = last? (y ∷ xs)

  -- `commands.slice(0, -1)`
  unfoldable pub drop_last : List (DevicePendingOperation V) → List (DevicePendingOperation V)
  drop_last [] = []
  drop_last (x ∷ []) = []
  drop_last (x ∷ y ∷ xs) = x ∷ drop_last (y ∷ xs)

  -- What the queue of a card becomes when `op` meets its last command `existing`.
  unfoldable pub meet :
      List (DevicePendingOperation V)
      → DevicePendingOperation V
      → Body V
      → DevicePendingOperation V
      → Body V
      → List (DevicePendingOperation V)
  meet commands existing (deletes _) op (upserts _) =
      if leb existing.updated_at op.updated_at then op ∷ [] else commands
  meet commands existing (deletes _) op (patches _ _) = commands
  meet commands existing (deletes _) op (deletes _) = commands
  meet commands existing (upserts _) op (deletes _) = op ∷ []
  meet commands existing (patches _ _) op (deletes _) = op ∷ []
  meet commands existing (upserts _) op (patches _ _) = commands ++ op ∷ []
  meet commands existing (patches _ fields) op (patches card_id more) =
      if is_review existing.operation || is_review op.operation
      then commands ++ op ∷ []
      else drop_last commands ++ fold_patches existing fields op card_id more ∷ []
  meet commands existing (upserts _) op (upserts _) = op ∷ []
  meet commands existing (patches _ _) op (upserts _) = op ∷ []

  unfoldable pub fold_command :
      List (DevicePendingOperation V) → DevicePendingOperation V → List (DevicePendingOperation V)
  fold_command commands op = elim (last? commands) [
    | none ↦ op ∷ []
    | some existing ↦ meet commands existing existing.body op op.body
  ]

  -- `commandsByCard.get(key) ?? []`
  abbrev pub queue_of : String → Queues V → List (DevicePendingOperation V)
  queue_of key queues = elim (Keyed.get text_discrete key queues) [ none ↦ [] | some l ↦ l ]

  unfoldable pub enqueue : Queues V → DevicePendingOperation V → Queues V
  enqueue queues op =
      let key = queue_key op in
      Keyed.put text_discrete key (fold_command (queue_of key queues) op) queues

  unfoldable pub enqueue_all : Queues V → List (DevicePendingOperation V) → Queues V
  enqueue_all queues [] = queues
  enqueue_all queues (op ∷ ops) = enqueue_all (enqueue queues op) ops

  -- `[...commandsByCard.values()].flat()`
  unfoldable pub commands_of : Queues V → List (DevicePendingOperation V)
  commands_of [] = []
  commands_of ((key, commands) ∷ queues) = commands ++ commands_of queues

  abbrev pub time_of : DevicePendingOperation V → ℕ
  time_of op = op.updated_at

  unfoldable pub merge_pending_operations :
      List (DevicePendingOperation V) → List (DevicePendingOperation V)
  merge_pending_operations ops =
      Sorting.sort time_of (commands_of (enqueue_all [] (Sorting.sort time_of ops)))

  -- `scopePendingOperation`; an empty owner counts as none
  unfoldable pub scope_pending_operation :
      DevicePendingOperation V → String → Option (DevicePendingOperation V)
  scope_pending_operation op user_id = elim op.owner_user_id [
    | none ↦ some (record op { owner_user_id = some user_id })
    | some owner ↦
        if not (same text_discrete owner "") && not (same text_discrete owner user_id)
        then none
        else some (record op { owner_user_id = some user_id })
  ]
