-- ===== src/DeviceSync/Size.antt =====
-- The order and the length of what `mergePendingOperations` of src/lib/deviceSync.ts gives, and the
-- scope of an owner.
use flash_card.Prelude.{
  ◌+◌, ◌≤◌, ◌≡◌, ◌≢◌, ◌↔◌, refl, none, some, List, [], ◌∷◌, String, arith, length, length-append,
  Option-cases, inl, inr,
}
use flash_card.Prelude.Text.{text_discrete}
use flash_card.Prelude.Keyed
use flash_card.Prelude.Sorting
use flash_card.Prelude.Sorting.{IsSorted, sort-IsSorted, length-sort}
use flash_card.DeviceSync.Operations.{
  Body, upserts, patches, deletes, DevicePendingOperation, Queues, drop_last, last?, fold_patches,
  meet, fold_command, time_of, queue_key, queue_of, enqueue, enqueue_all, commands_of,
  merge_pending_operations, scope_pending_operation,
}

module _ {V : Type 0} where
  length-drop_last :
      (xs : List (DevicePendingOperation V)) {x : DevicePendingOperation V}
      → last? xs ≡ some x
      → length (drop_last xs) + 1 ≡ length xs
  unfolding last? drop_last
  length-drop_last [] h = absurd (ground arith)
  length-drop_last (x ∷ []) h = refl
  length-drop_last (x ∷ y ∷ xs) h = omega (arith, length-drop_last (y ∷ xs) h)

  length-meet :
      (commands : List (DevicePendingOperation V)) (existing op : DevicePendingOperation V)
      (b c : Body V)
      → last? commands ≡ some existing
      → length (meet commands existing b op c) ≤ length commands + 1
  unfolding meet
  length-meet commands existing op (deletes i) (upserts x) l = ground arith
  length-meet commands existing op (deletes i) (patches j m) l = omega arith
  length-meet commands existing op (deletes i) (deletes j) l = omega arith
  length-meet commands existing op (upserts x) (deletes j) l = omega arith
  length-meet commands existing op (patches i fields) (deletes j) l = omega arith
  length-meet commands existing op (upserts x) (patches j m) l =
      omega (arith, length-append commands (op ∷ []))
  length-meet commands existing op (patches i fields) (upserts y) l = omega arith
  length-meet commands existing op (upserts x) (upserts y) l = omega arith
  length-meet commands existing op (patches i fields) (patches j m) l = ground (
    arith,
    length-append commands (op ∷ []),
    length-append (drop_last commands) (fold_patches existing fields op j m ∷ []),
    length-drop_last commands l,
  )

  length-fold_command :
      (commands : List (DevicePendingOperation V)) (op : DevicePendingOperation V)
      → length (fold_command commands op) ≤ length commands + 1
  unfolding fold_command
  length-fold_command commands op = elim (Option-cases (last? commands)) [
    | inl empty ↦ ground arith
    | inr (existing, l) ↦
        rw (l, fold_command) (length-meet commands existing op existing.body op.body l)
  ]

  length-put :
      (key : String) (commands : List (DevicePendingOperation V)) (queues : Queues V)
      → length (commands_of (Keyed.put text_discrete key commands queues))
          + length (queue_of key queues)
        ≡ length (commands_of queues) + length commands
  unfolding commands_of Keyed.put Keyed.get
  length-put key commands [] = omega (arith, length-append commands [])
  length-put key commands ((j, old) ∷ queues) = ground (
    arith,
    length-append commands (commands_of queues),
    length-append old (commands_of queues),
    length-append old (commands_of (Keyed.put text_discrete key commands queues)),
    length-put key commands queues,
  )

  length-enqueue_all :
      (queues : Queues V) (ops : List (DevicePendingOperation V))
      → length (commands_of (enqueue_all queues ops)) ≤ length (commands_of queues) + length ops
  unfolding enqueue_all enqueue
  length-enqueue_all queues [] = omega arith
  length-enqueue_all queues (op ∷ ops) =
      let key = queue_key op in
      omega (
        arith,
        length-enqueue_all (enqueue queues op) ops,
        length-put key (fold_command (queue_of key queues) op) queues,
        length-fold_command (queue_of key queues) op,
      )

  -- The merged operations stand in the order of their times, and are no more than were given.
  pub merge_pending_operations-IsSorted :
      (ops : List (DevicePendingOperation V))
      → IsSorted time_of (merge_pending_operations ops)
        × (length (merge_pending_operations ops) ≤ length ops)
  unfolding merge_pending_operations commands_of
  merge_pending_operations-IsSorted ops =
      let sorted = Sorting.sort time_of ops in
      let commands = commands_of (enqueue_all [] sorted) in
      (
        sort-IsSorted time_of commands,
        omega (
          arith,
          length-sort time_of commands,
          length-enqueue_all [] sorted,
          length-sort time_of ops,
        ),
      )

  -- An operation is left out for a user exactly if it names another owner, and what is let through
  -- is the user's own from then on, with its body unchanged.
  pub scope_pending_operation_owner :
      (op : DevicePendingOperation V) (user_id : String)
      → ((scope_pending_operation op user_id ≡ none)
          ↔ ((owner : String) × (op.owner_user_id ≡ some owner) × (owner ≢ "") × (owner ≢ user_id)))
        × ((scoped : DevicePendingOperation V)
            → scope_pending_operation op user_id ≡ some scoped
            → (scoped.owner_user_id ≡ some user_id)
              × (scoped.body ≡ op.body)
              × (scope_pending_operation scoped user_id ≡ some scoped))
  unfolding scope_pending_operation
  scope_pending_operation_owner op user_id = elim (Option-cases op.owner_user_id) [
    | inl free ↦
        ((λ h. absurd (ground arith), λ h. absurd (ground arith)), λ scoped h. ground arith)
    | inr (owner, named) ↦ (
      (λ h. (owner, named, ground arith, ground arith), λ h. ground arith),
      λ scoped h. ground arith,
    )
  ]
