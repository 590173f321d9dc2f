-- ===== src/Gamification/Watermarks.antt =====
-- The watermarks of streams of gamificationModel.ts: `isValidLegacyXpSequenceByClient` and
-- `normalizeXpStreamWatermark`.
use flash_card.Prelude.{
  ℕ, Bool, true, false, not, ◌&&◌, ◌||◌, Option, none, some, List, String, same, is_some, leb,
  length, keep, ◌==◌, if◌then◌else◌,
}
use flash_card.Prelude.Text.{text_discrete}
use flash_card.Prelude.Number.{Number, nat}
use flash_card.Gamification.Values.{
  XpTexts, valid_xp_client_id, valid_xp_operation_sequence, valid_stream,
}

abbrev pub max_legacy_xp_client_streams : ℕ
max_legacy_xp_client_streams = 64

-- `retiredAt` of a stored watermark.
pub data StoredRetirement : Type 0 where
  missing null not_text : StoredRetirement
  instant : String → StoredRetirement

-- A stored watermark: how many properties it has, and the four that count, `none` where one is
-- missing. A client that is not a text is `some none`.
pub record StoredWatermark : Type 0 where
  pub key_count : ℕ
  pub schema_version : Option Number
  pub client_id : Option (Option String)
  pub sequence : Option Number
  pub retired_at : StoredRetirement

pub record XpStreamWatermark : Type 0 where
  pub client_id : String
  pub sequence : Number
  pub retired_at : Option String

unfoldable pub is_schema_version : Option Number → Bool
is_schema_version (some (nat n)) = n == 2
is_schema_version _ = false

module _ (texts : XpTexts) (is_instant_text : String → Bool) where
  open texts use {length_of, parse_date}

  unfoldable pub is_valid_legacy_xp_sequence_by_client : Option (List (String × Number)) → Bool
  is_valid_legacy_xp_sequence_by_client none = false
  is_valid_legacy_xp_sequence_by_client (some entries) =
      leb (length entries) max_legacy_xp_client_streams
      && length (keep (valid_stream texts) entries) == length entries

  unfoldable pub valid_xp_retired_at : String → Bool
  valid_xp_retired_at value =
      length_of value == 24 && is_instant_text value && is_some (parse_date value)

  -- `retiredAt === null || validXpRetiredAt(retiredAt)`, with what it is then
  unfoldable pub read_retirement : StoredRetirement → Option (Option String)
  unfolding valid_xp_retired_at
  read_retirement missing = none
  read_retirement null = some none
  read_retirement not_text = none
  read_retirement (instant value) = if valid_xp_retired_at value then some (some value) else none

  -- `expectedClientId === undefined || clientId === expectedClientId`
  abbrev pub is_expected : Option String → String → Bool
  is_expected none client_id = true
  is_expected (some expected) client_id = same text_discrete client_id expected

  -- The four properties, where each is there.
  unfoldable pub check_watermark :
      Option String → String → Number → Option String → Option XpStreamWatermark
  check_watermark expected client_id sequence retired_at =
      if valid_xp_client_id texts client_id
        && is_expected expected client_id
        && valid_xp_operation_sequence sequence
      then some (record { client_id = client_id; sequence = sequence; retired_at = retired_at })
      else none

  unfoldable pub watermark_of :
      Option String
      → Option (Option String)
      → Option Number
      → Option (Option String)
      → Option XpStreamWatermark
  watermark_of expected (some (some client_id)) (some sequence) (some retired_at) =
      check_watermark expected client_id sequence retired_at
  watermark_of expected _ _ _ = none

  -- `none` is a value that is not an object.
  unfoldable pub normalize_xp_stream_watermark :
      Option StoredWatermark → (expected_client_id : Option String) → Option XpStreamWatermark
  normalize_xp_stream_watermark none expected_client_id = none
  normalize_xp_stream_watermark (some source) expected_client_id =
      if not (source.key_count == 4) || not (is_schema_version source.schema_version)
      then none
      else watermark_of expected_client_id source.client_id source.sequence
          (read_retirement source.retired_at)
