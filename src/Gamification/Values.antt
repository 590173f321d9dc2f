-- ===== src/Gamification/Values.antt =====
-- The checks of gamificationModel.ts, and the values that they let through. An object is a list of
-- its entries in their order, with keys that are not numbers.
use Prim.Native.String.{◌++◌ as join}
use flash_card.Prelude.{
  ℕ, suc, ◌-◌, ◌+◌, min, Bool, false, not, ◌&&◌, ◌||◌, Option, none, some, List, [], ◌∷◌, String,
  same, includes, is_some, leb, ltb, length, keep, drop, ◌==◌, if◌then◌else◌,
}
use flash_card.Prelude.Text.{text_discrete}
use flash_card.Prelude.Keyed.{get, put}
use flash_card.Prelude.Number.{
  Number, nat, negative, other, safe_natural?, safe_positive?, max_safe_integer,
}

-- The platform: the length of a text, the two patterns of identifiers, `String(n)`, and `Date.parse`,
-- whose finite results are counted from the earliest date that the platform has.
pub record XpTexts : Type 0 where
  pub length_of : String → ℕ
  pub is_operation_text : String → Bool
  pub is_client_text : String → Bool
  pub show : Number → String
  pub parse_date : String → Option ℕ

abbrev pub max_xp_operation_delta : ℕ
max_xp_operation_delta = 1000000

abbrev pub max_pending_xp_operations : ℕ
max_pending_xp_operations = 2048

abbrev pub max_gamification_history_entries : ℕ
max_gamification_history_entries = 730

abbrev pub max_xp_stream_watermarks : ℕ
max_xp_stream_watermarks = 498

unfoldable pub finite_non_negative_gamification_value : Number → ℕ
finite_non_negative_gamification_value value = elim (safe_natural? value) [ none ↦ 0 | some n ↦ n ]

unfoldable pub valid_xp_delta : Number → Bool
valid_xp_delta (nat n) = not (n == 0) && leb n max_xp_operation_delta
valid_xp_delta (negative n) = leb (suc n) max_xp_operation_delta
valid_xp_delta other = false

unfoldable pub valid_xp_operation_sequence : Number → Bool
valid_xp_operation_sequence value = is_some (safe_positive? value)

-- `Math.min(MAX_XP_VALUE, Math.max(0, xp + delta))`
unfoldable pub add_delta : ℕ → Number → ℕ
add_delta xp (nat n) = min max_safe_integer (xp + n)
add_delta xp (negative n) = min max_safe_integer (xp - suc n)
add_delta xp other = xp

abbrev pub is_reserved : String → Bool
is_reserved = includes text_discrete ("__proto__" ∷ "constructor" ∷ "prototype" ∷ [])

module _ (texts : XpTexts) where
  open texts use {length_of, is_operation_text, is_client_text, show, parse_date}

  unfoldable pub valid_operation_id : String → Bool
  valid_operation_id value =
      ltb 0 (length_of value) && leb (length_of value) 128 && is_operation_text value

  unfoldable pub valid_xp_client_id : String → Bool
  valid_xp_client_id value =
      ltb 0 (length_of value)
      && leb (length_of value) 64
      && not (is_reserved value)
      && is_client_text value

  unfoldable pub create_structured_xp_operation_id : String → Number → String
  create_structured_xp_operation_id client_id sequence =
      join "xp2:" (join client_id (join ":" (show sequence)))

  unfoldable pub valid_history_day : String → Bool
  valid_history_day value =
      ltb 0 (length_of value) && leb (length_of value) 64 && not (is_reserved value)

  abbrev pub valid_entry : String × Number → Bool
  valid_entry e = valid_history_day e.0 && is_some (safe_natural? e.1)

  -- `slice(-n)`
  unfoldable pub take_last : ℕ → List (String × Number) → List (String × Number)
  take_last n entries = drop (length entries - n) entries

  -- `none` is a value that is not an object.
  unfoldable pub normalize_gamification_history :
      Option (List (String × Number)) → List (String × Number)
  unfolding take_last
  normalize_gamification_history none = []
  normalize_gamification_history (some entries) =
      take_last max_gamification_history_entries (keep valid_entry entries)

  unfoldable pub amount_of : String → List (String × Number) → ℕ
  amount_of day history = elim (get text_discrete day history) [
    | none ↦ 0
    | some amount ↦ finite_non_negative_gamification_value amount
  ]

  unfoldable pub add_xp_to_history :
      List (String × Number) → (day : String) → (amount : Number) → List (String × Number)
  unfolding amount_of
  add_xp_to_history history day amount =
      let safe_history = normalize_gamification_history (some history) in
      if not (valid_history_day day) || not (valid_xp_delta amount)
      then safe_history
      else normalize_gamification_history (
          some (
            put text_discrete day (nat (add_delta (amount_of day safe_history) amount))
              safe_history))

  abbrev pub valid_stream : String × Number → Bool
  valid_stream e = valid_xp_client_id e.0 && valid_xp_operation_sequence e.1

  unfoldable pub normalize_applied_xp_sequence_by_client :
      Option (List (String × Number)) → List (String × Number)
  normalize_applied_xp_sequence_by_client none = []
  normalize_applied_xp_sequence_by_client (some value) =
      let entries = keep valid_stream value in
      if leb (length entries) max_xp_stream_watermarks then entries else []

  -- `activityTime`; `none` is minus infinity.
  unfoldable pub activity_time : Option String → Option ℕ
  activity_time none = none
  activity_time (some value) = if same text_discrete value "" then none else parse_date value

  unfoldable pub valid_last_active : Option String → Option String
  valid_last_active none = none
  valid_last_active (some value) =
      if leb (length_of value) 64 && is_some (parse_date value) then some value else none
