-- ===== src/RateLimit/Fallback.antt =====
-- functions/src/rateLimiter.ts: the deadline on the persistent store and the fallback to the memory
-- store; functions/src/serviceBudget.ts: `withServiceBudget`.
use Prim.Native.String.{◌++◌ as join}
use flash_card.Prelude.{
  ◌≡◌, refl, ◌⊎◌, Bool, true, false, not, ◌&&◌, ◌||◌, String, Outcome, ok, throw, arith, inl, inr,
  if◌then◌else◌,
}
use flash_card.Prelude.Text.{text_discrete}
use flash_card.Prelude.{same}
use flash_card.RateLimit.{
  Error, invalid_capacity, invalid_maximum, invalid_time, rate_limit_exceeded, storage_timeout,
  foreign,
}

-- What a call of the persistent store has come to when the deadline of the storage is reached.
pub data Settlement : Type 0 where
  resolved : Settlement
  rejected : Error → Settlement
  pending : Settlement

-- `withRateLimitStorageDeadline`
unfoldable pub with_rate_limit_storage_deadline : Settlement → Outcome Error (Unit {0})
with_rate_limit_storage_deadline resolved = ok tt
with_rate_limit_storage_deadline (rejected e) = throw e
with_rate_limit_storage_deadline pending = throw storage_timeout

pub data Consumed : Type 0 where
  firestore memory : Consumed

error_code : Error → String
error_code (foreign code details message) = code
error_code _ = ""

error_details : Error → String
error_details (foreign code details message) = details
error_details _ = ""

error_message : Error → String
error_message (foreign code details message) = message
error_message (rate_limit_exceeded _) = "Rate limit exceeded."
error_message invalid_capacity = "Memory rate-limit capacity must be a positive integer."
error_message invalid_maximum = "Rate limit maximum must be a positive integer."
error_message invalid_time = "Rate limit time must be a non-negative integer."
error_message storage_timeout = "Persistent rate-limit storage did not respond in time."

abbrev pub is_storage_timeout : Error → Bool
is_storage_timeout storage_timeout = true
is_storage_timeout _ = false

-- The text functions of the platform: `toLocaleLowerCase`, and `text.includes(part)`.
pub record TextPlatform : Type 0 where
  pub lower : String → String
  pub includes : (text part : String) → Bool

module _ (platform : TextPlatform) where
  open platform use {lower, includes}

  is_quota_text : String → String → Bool
  is_quota_text code message =
      same text_discrete code "8"
      || includes code "resource-exhausted"
      || includes message "resource_exhausted"
      || includes message "resource-exhausted"
      || includes message "quota"

  unfoldable pub is_firestore_quota_error : Error → Bool
  unfolding is_quota_text error_code error_details error_message
  is_firestore_quota_error (rate_limit_exceeded _) = false
  is_firestore_quota_error e =
      is_quota_text (lower (error_code e))
        (lower (join (error_details e) (join " " (error_message e))))

  module _ {S : Type 0} where
    after_memory : S × Outcome Error (Unit {0}) → S × Outcome Error Consumed
    after_memory (s, ok _) = (s, ok memory)
    after_memory (s, throw e) = (s, throw e)

    -- The `try` and its `catch`. `consume_memory` is the call of the memory store on its state `s`.
    unfoldable pub consume_rate_limit_with_memory_fallback :
        Settlement → (S → S × Outcome Error (Unit {0})) → S → S × Outcome Error Consumed
    unfolding after_memory
    consume_rate_limit_with_memory_fallback persistent consume_memory s =
        elim (with_rate_limit_storage_deadline persistent) [
          | ok _ ↦ (s, ok firestore)
          | throw e ↦
              if not (is_storage_timeout e) && not (is_firestore_quota_error e)
              then (s, throw e)
              else after_memory (consume_memory s)
        ]

    -- No call is let through for free: if the function returns, either the persistent store has
    -- answered in time and the memory store is as it was, or the memory store was charged, which
    -- happens only at the deadline or at a quota error of the database.
    pub fallback_charges :
        (persistent : Settlement) (consume_memory : S → S × Outcome Error (Unit {0})) (s : S)
        (c : Consumed)
        → (consume_rate_limit_with_memory_fallback persistent consume_memory s).1 ≡ ok c
        → ((persistent ≡ resolved)
            × (c ≡ firestore)
            × ((consume_rate_limit_with_memory_fallback persistent consume_memory s).0 ≡ s))
          ⊎ ((e : Error) × (with_rate_limit_storage_deadline persistent ≡ throw e)
              × ((is_storage_timeout e ≡ true) ⊎ (is_firestore_quota_error e ≡ true))
              × (c ≡ memory)
              × ((consume_memory s).1 ≡ ok tt)
              × ((consume_rate_limit_with_memory_fallback persistent consume_memory s).0
                  ≡ (consume_memory s).0))
    unfolding consume_rate_limit_with_memory_fallback with_rate_limit_storage_deadline
    fallback_charges resolved consume_memory s c h = inl (refl, ground arith, refl)
    fallback_charges (rejected e) consume_memory s c h =
        inr (e, refl, ground arith, ground arith, ground arith, ground arith)
    fallback_charges pending consume_memory s c h =
        inr (storage_timeout, refl, ground arith, ground arith, ground arith, ground arith)

-- `consumeRateLimitFailClosed`
unfoldable pub consume_rate_limit_fail_closed : Settlement → Outcome Error Consumed
consume_rate_limit_fail_closed persistent = elim (with_rate_limit_storage_deadline persistent) [
  | ok _ ↦ ok firestore
  | throw e ↦ throw e
]

-- `withServiceBudget`: the operation runs only once the budget is consumed.
unfoldable pub with_service_budget :
    {T : Type 0} → Outcome Error Consumed → (Unit {0} → Outcome Error T) → Outcome Error T
with_service_budget (ok _) operation = operation tt
with_service_budget (throw e) operation = throw e
