-- ===== src/Identity/CloudError.antt =====
-- `isCloudQuotaError` and `isRetryableCloudError` of src/lib/cloudError.ts, on thrown values of any
-- kind.
use flash_card.Prelude.{Bool, ◌||◌, String, [], ◌∷◌, same, any, if◌then◌else◌}
use flash_card.Prelude.Text.{text_discrete}

-- A property of a thrown value: missing, or `null` or `undefined` (with the name of which), or its
-- text.
pub data Field : Type 0 where
  absent : Field
  nullish : String → Field
  present : String → Field

-- A thrown value: whether it is an `instanceof Error`, its properties where it is an object, and
-- `String(error)`.
pub record Thrown : Type 0 where
  pub is_error : Bool
  pub code : Field
  pub message : Field
  pub text : String

-- `toLocaleLowerCase`, and `text.includes(part)`
pub record Texts : Type 0 where
  pub lower : String → String
  pub has : (text part : String) → Bool

abbrev pub firestore_daily_read_limit_message : String
firestore_daily_read_limit_message =
    "Firebase's daily read limit has been reached. Changes stay safe on this device until the quota resets."

-- `String(field ?? '')`
abbrev pub field_text : Field → String
field_text absent = ""
field_text (nullish _) = ""
field_text (present t) = t

module _ (texts : Texts) where
  open texts use {lower, has}

  abbrev pub error_field : Field → String
  error_field f = lower (field_text f)

  -- The text that is searched: that of an `Error`, or the message of another object, or all of it.
  unfoldable pub searched_message : Thrown → String
  searched_message e =
      if e.is_error
      then lower (field_text e.message)
      else let message = error_field e.message in
        if same text_discrete message "" then lower e.text else message

  unfoldable pub is_cloud_quota_error : Thrown → Bool
  is_cloud_quota_error e =
      has (error_field e.code) "resource-exhausted"
      || has (error_field e.code) "quota-exceeded"
      || has (searched_message e) "resource-exhausted"
      || has (searched_message e) "quota"

  unfoldable pub is_retryable_cloud_error : Thrown → Bool
  is_retryable_cloud_error e =
      is_cloud_quota_error e
      || any (has (error_field e.code)) (
          "unavailable" ∷ "deadline-exceeded" ∷ "network-request-failed" ∷ "aborted" ∷ "internal"
          ∷ "unknown" ∷ [])
      || any (has (searched_message e))
          ("network" ∷ "offline" ∷ "timeout" ∷ "connection" ∷ "failed to fetch" ∷ [])
