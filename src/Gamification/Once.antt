-- ===== src/Gamification/Once.antt =====
-- How often `rebaseGamificationSnapshots` of gamificationModel.ts counts an operation.
use flash_card.Prelude.{ℕ, Bool, not, List, [], ◌∷◌}
use flash_card.Prelude.Number.{Number}
use flash_card.Gamification.Values.{XpTexts, add_delta, normalize_applied_xp_sequence_by_client}
use flash_card.Gamification.Operations.{
  PendingXpOperation, is_applied_xp_operation, normalize_applied_xp_operation_ids,
}
use flash_card.Gamification.Rebase.{StoredSnapshot}

-- The points with the delta of each operation added once, in order.
unfoldable pub sum_deltas : ℕ → List PendingXpOperation → ℕ
sum_deltas xp [] = xp
sum_deltas xp (op ∷ operations) = sum_deltas (add_delta xp op.delta) operations

module _ (texts : XpTexts) where
  -- Whether the cloud has not applied an operation.
  abbrev pub is_unapplied : StoredSnapshot → PendingXpOperation → Bool
  is_unapplied cloud op = not (
      is_applied_xp_operation texts op
        (normalize_applied_xp_operation_ids texts cloud.applied_operation_ids)
        (normalize_applied_xp_sequence_by_client texts cloud.applied_operation_sequence_by_client))
