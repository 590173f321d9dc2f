-- ===== src/Examples/DeviceSync.antt =====
-- The compaction of a small queue, whose values are numbers.
use flash_card.Prelude.{ℕ, ◌≡◌, refl, Option, none, some, List, [], ◌∷◌, String, inl, inr}
use flash_card.Prelude.Text.{text_discrete}
use flash_card.Prelude.Keyed
use flash_card.Prelude.Sorting
use flash_card.CardProtocol.Protocol.{CardMutationKind, review, patch, Fields}
use flash_card.DeviceSync.Operations.{
  Body, patches, deletes, upserts, DevicePendingOperation, time_of, operation_field_mask,
  merge_pending_operations,
}
use flash_card.DeviceSync.Meaning.{State, exec}
use flash_card.DeviceSync.Masks.{own_mask-Covers}
use flash_card.DeviceSync.Queues.{of_queue}
use flash_card.DeviceSync.Merge.{merge_pending_operations-exec}

abbrev at : ℕ → Option CardMutationKind → Option (List String) → Body ℕ → DevicePendingOperation ℕ
at time operation mask body = record {
  op_id = none;
  operation = operation;
  base_revision = none;
  field_mask = mask;
  library_epoch = none;
  updated_at = time;
  owner_user_id = some "ann";
  review_xp = none;
  body = body;
}

abbrev both_fields : Fields ℕ
both_fields = ("reviews", 2) ∷ ("interval", 4) ∷ []

abbrev one_field : Fields ℕ
one_field = ("easeFactor", 1) ∷ []

-- Two patches of one card, of which one has a mask, queued out of order with a review of the card,
-- about the deletion of another.
abbrev queued : List (DevicePendingOperation ℕ)
queued =
    at 5 (some patch) (some (operation_field_mask both_fields)) (patches "dog" both_fields)
    ∷ at 3 none none (deletes "cat")
    ∷ at 1 none none (patches "dog" one_field)
    ∷ at 6 (some review) none (patches "dog" one_field)
    ∷ at 7 none none (upserts (record { id = "cat"; fields = ("reviews", 0) ∷ [] }))
    ∷ []

abbrev before : State ℕ
before = some (some 0, [], (none, some 1, some 0, 0))

both_once : Keyed.IsDistinct text_discrete both_fields
unfolding Keyed.get text_discrete
both_once = (refl, (refl, tt))

one_once : Keyed.IsDistinct text_discrete one_field
unfolding Keyed.get text_discrete
one_once = (refl, tt)

merge_pending_operations-exec_example :
    exec "interval" (of_queue "ann:dog" (merge_pending_operations queued)) before
    ≡ exec "interval" (Sorting.sort time_of (of_queue "ann:dog" queued)) before
merge_pending_operations-exec_example =
    merge_pending_operations-exec queued "ann:dog" "interval" before (
      own_mask-Covers
          (at 5 (some patch) (some (operation_field_mask both_fields)) (patches "dog" both_fields))
          "dog" both_fields both_once (inr refl),
      (
        tt,
        (
          own_mask-Covers (at 1 none none (patches "dog" one_field)) "dog" one_field one_once
              (inl refl),
          (
            own_mask-Covers (at 6 (some review) none (patches "dog" one_field)) "dog" one_field
                one_once (inl refl),
            (tt, tt),
          ),
        ),
      ),
    )
