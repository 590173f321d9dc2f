-- ===== src/Gamification/Rebase.antt =====
-- The snapshots of gamificationModel.ts: what a day adds to them, and the rebase of a device's
-- snapshot on the cloud's. Dates are given as the platform prints them.
use flash_card.Prelude.{
  ℕ, ◌+◌, max, Bool, true, false, not, ◌&&◌, Option, none, some, List, [], ◌∷◌, map, String, same,
  ltb, keep, ◌==◌, if◌then◌else◌,
}
use flash_card.Prelude.Text.{text_discrete}
use flash_card.Prelude.Number.{Number, nat}
use flash_card.Gamification.Values.{
  XpTexts, finite_non_negative_gamification_value, valid_xp_delta, add_delta,
  normalize_gamification_history, add_xp_to_history, normalize_applied_xp_sequence_by_client,
  activity_time, valid_last_active,
}
use flash_card.Gamification.Operations.{
  StoredXpOperation, PendingXpOperation, store_operation, normalize_pending_xp_operations,
  is_applied_xp_operation, normalize_applied_xp_operation_ids,
}

-- A snapshot as it is stored, of values of unknown kind.
pub record StoredSnapshot : Type 0 where
  pub streak : Number
  pub xp : Number
  pub last_active : Option String
  pub history : Option (List (String × Number))
  pub pending_operations : Option (List (Option StoredXpOperation))
  pub applied_operation_ids : Option (List (Option String))
  pub applied_operation_sequence_by_client : Option (List (String × Number))

-- A snapshot as `rebaseGamificationSnapshots` gives it. A list that is left out where it is empty is
-- empty here.
pub record Snapshot : Type 0 where
  pub streak : ℕ
  pub xp : ℕ
  pub last_active : Option String
  pub history : List (String × Number)
  pub pending_operations : List PendingXpOperation
  pub applied_operation_ids : List String
  pub applied_operation_sequence_by_client : List (String × Number)

module _ (texts : XpTexts) where
  -- The loop of `applyPendingXpOperations`.
  unfoldable pub apply_operations :
      ℕ × List (String × Number) → List PendingXpOperation → ℕ × List (String × Number)
  apply_operations state [] = state
  apply_operations state (op ∷ operations) =
      apply_operations (add_delta state.0 op.delta, add_xp_to_history texts state.1 op.day op.delta)
        operations

  unfoldable pub apply_pending_xp_operations :
      ℕ × List (String × Number) → List PendingXpOperation → ℕ × List (String × Number)
  apply_pending_xp_operations snapshot operations =
      apply_operations
        (
          finite_non_negative_gamification_value (nat snapshot.0),
          normalize_gamification_history texts (some snapshot.1),
        )
        (normalize_pending_xp_operations texts
          (some (map (λ op. some (store_operation op)) operations)))

  -- `a >= b` and `a === b` of two activity times
  abbrev pub is_no_earlier : Option ℕ → Option ℕ → Bool
  is_no_earlier a none = true
  is_no_earlier none (some b) = false
  is_no_earlier (some a) (some b) = not (ltb a b)

  abbrev pub same_time : Option ℕ → Option ℕ → Bool
  same_time none none = true
  same_time (some a) (some b) = a == b
  same_time _ _ = false

  -- `a ?? b`
  abbrev pub first_known : Option String → Option String → Option String
  first_known none b = b
  first_known (some a) b = some a

  abbrev pub has_any : List PendingXpOperation → Bool
  has_any [] = false
  has_any (op ∷ operations) = true

  unfoldable pub rebased_activity :
      StoredSnapshot → StoredSnapshot → List PendingXpOperation → ℕ × Option String
  rebased_activity local cloud pending =
      let cloud_last_active = valid_last_active texts cloud.last_active in
      let local_last_active = valid_last_active texts local.last_active in
      let cloud_activity = activity_time texts cloud_last_active in
      let local_activity = activity_time texts local_last_active in
      let cloud_streak = finite_non_negative_gamification_value cloud.streak in
      let local_streak = finite_non_negative_gamification_value local.streak in
      if has_any pending && is_no_earlier local_activity cloud_activity
      then (
        if same_time local_activity cloud_activity
            then max cloud_streak local_streak
            else local_streak,
        first_known local_last_active cloud_last_active,
      )
      else (cloud_streak, cloud_last_active)

  -- The operations of the device that the cloud has not applied.
  unfoldable pub unapplied : StoredSnapshot → StoredSnapshot → List PendingXpOperation
  unapplied local cloud =
      let ids = normalize_applied_xp_operation_ids texts cloud.applied_operation_ids in
      let sequences =
        normalize_applied_xp_sequence_by_client texts cloud.applied_operation_sequence_by_client in
      keep (λ op. not (is_applied_xp_operation texts op ids sequences))
        (normalize_pending_xp_operations texts local.pending_operations)

  unfoldable pub rebase_gamification_snapshots : StoredSnapshot → StoredSnapshot → Snapshot
  rebase_gamification_snapshots local cloud =
      let pending = unapplied local cloud in
      let activity = rebased_activity local cloud pending in
      let applied =
        apply_pending_xp_operations
          (
            finite_non_negative_gamification_value cloud.xp,
            normalize_gamification_history texts cloud.history,
          )
          pending in
      record {
        streak = activity.0;
        xp = applied.0;
        last_active = activity.1;
        history = applied.1;
        pending_operations = pending;
        applied_operation_ids =
            normalize_applied_xp_operation_ids texts cloud.applied_operation_ids;
        applied_operation_sequence_by_client =
            normalize_applied_xp_sequence_by_client texts
              cloud.applied_operation_sequence_by_client;
      }

-- `lastActive?.toDateString() === day`
abbrev pub is_on : Option String → String → Bool
is_on none day = false
is_on (some last) day = same text_discrete last day

-- `calculateLocalGamification`, with the dates as `toDateString` prints them: today, yesterday, and
-- that of the last activity, where there is one.
unfoldable pub calculate_local_gamification :
    (streak xp : Number)
    → (last_active : Option String) → (today yesterday : String) → ℕ × (ℕ × String)
calculate_local_gamification streak xp last_active today yesterday =
    let safe_streak = finite_non_negative_gamification_value streak in
    (
      if is_on last_active today
          then max 1 safe_streak
          else if is_on last_active yesterday
          then max 1 (safe_streak + 1)
          else 1,
      (finite_non_negative_gamification_value xp, today),
    )

-- `addXpToGamification` on the points, the last activity and the history; `day` and `today` are the
-- two printings of now.
unfoldable pub add_xp_to_gamification :
    XpTexts
    → (xp : Number) → (last_active : Option String) → List (String × Number)
    → (amount : Number) → (day today : String) → Number × (Option String × List (String × Number))
add_xp_to_gamification texts xp last_active history amount day today =
    if not (valid_xp_delta amount) then (xp, (last_active, history)) else (
      nat (add_delta (finite_non_negative_gamification_value xp) amount),
      (some today, add_xp_to_history texts history day amount),
    )
