-- ===== src/DeviceSync/Merge.antt =====
-- `mergePendingOperations` of src/lib/deviceSync.ts as a whole, against the meaning of operations.
use flash_card.Prelude.{◌≤◌, ◌≡◌, ap, ◌∙◌, List, [], ◌∷◌, String, same, arith, All}
use flash_card.Prelude.Text.{text_discrete}
use flash_card.Prelude.Sorting
use flash_card.Prelude.Sorting.{
  IsSorted, sort-IsSorted, sort_of_IsSorted, keep-sort, All-keep, All-sort,
}
use flash_card.DeviceSync.Operations.{
  DevicePendingOperation, time_of, queue_key, enqueue_all, commands_of, merge_pending_operations,
}
use flash_card.DeviceSync.Meaning.{State, exec, IsCovered}
use flash_card.DeviceSync.Queues.{
  of_queue, fold_commands, queue_of-enqueue_all, fold_commands-IsQueue, of_queue-commands_of,
  enqueue_all-AreQueues,
}
use flash_card.Prelude.Keyed

module _ {V : Type 0} where
  All-zero :
      (xs : List (DevicePendingOperation V))
      → All (λ (op : DevicePendingOperation V). 0 ≤ op.updated_at) xs
  All-zero [] = tt
  All-zero (x ∷ xs) = (omega arith, All-zero xs)

  of_queue-All :
      (key : String) (xs : List (DevicePendingOperation V))
      → All (λ (op : DevicePendingOperation V). queue_key op ≡ key) (of_queue key xs)
  of_queue-All key [] = tt
  of_queue-All key (x ∷ xs) = ground (arith, of_queue-All key xs)

  -- The commands of one queue in the merged list are its own operations folded, in order of time.
  of_queue-merge :
      (key : String) (ops : List (DevicePendingOperation V))
      → All IsCovered ops
      → IsSorted time_of (fold_commands [] (Sorting.sort time_of (of_queue key ops)))
      → of_queue key (merge_pending_operations ops)
        ≡ fold_commands [] (Sorting.sort time_of (of_queue key ops))
  unfolding merge_pending_operations Keyed.get
  of_queue-merge key ops f s =
      let p = λ (op : DevicePendingOperation V). same text_discrete (queue_key op) key in
      let sorted = Sorting.sort time_of ops in
      let (d, a) =
        enqueue_all-AreQueues 0 [] sorted (All-zero sorted) (sort-IsSorted time_of ops)
          (All-sort time_of IsCovered ops f) tt tt in
      let queue : of_queue key (commands_of (enqueue_all [] sorted))
          ≡ fold_commands [] (Sorting.sort time_of (of_queue key ops)) =
        of_queue-commands_of key (enqueue_all [] sorted) d a
        ∙ queue_of-enqueue_all key [] sorted
        ∙ ap (fold_commands []) (keep-sort time_of p ops) in
      keep-sort time_of p (commands_of (enqueue_all [] sorted))
      ∙ ap (Sorting.sort time_of) queue
      ∙ sort_of_IsSorted time_of (fold_commands [] (Sorting.sort time_of (of_queue key ops))) s

  -- For each queue, which is the operations of one key (owner and card, joined by a colon; owners and
  -- cards whose keys coincide count as one), the merged operations do in order what the given
  -- operations do in the order of their times, those of equal times in the order in which they were
  -- queued: from any stored state of the card they leave the same, be it no card, or a value under a
  -- field, the reviews received since the card was created, in order, and the identifier, base
  -- revision, epoch and time of the last operation that reached it. An upsert stores the card; a
  -- patch writes the fields that its mask names and that may be changed, and reaches only a card that
  -- is there. Each patch names a field at most once, and its mask, where one is given, names each of
  -- its fields that may be changed.
  pub merge_pending_operations-exec :
      (ops : List (DevicePendingOperation V)) (key field : String) (state : State V)
      → All IsCovered ops
      → exec field (of_queue key (merge_pending_operations ops)) state
        ≡ exec field (Sorting.sort time_of (of_queue key ops)) state
  merge_pending_operations-exec ops key field state f =
      let own = of_queue key ops in
      let p = λ (op : DevicePendingOperation V). same text_discrete (queue_key op) key in
      let (sorted, end) =
        fold_commands-IsQueue field key 0 [] (Sorting.sort time_of own) state
          (record { own = tt; past = tt; sorted = tt; covered = tt })
          (All-zero (Sorting.sort time_of own)) (sort-IsSorted time_of own)
          (All-sort time_of (λ (op : DevicePendingOperation V). queue_key op ≡ key) own
            (of_queue-All key ops))
          (All-sort time_of IsCovered own (All-keep time_of IsCovered p ops f)) in
      ap (λ l. exec field l state) (of_queue-merge key ops f sorted) ∙ end
