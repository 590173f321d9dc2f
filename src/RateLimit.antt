-- ===== src/RateLimit.antt =====
-- functions/src/rateLimiter.ts: the decision of one budget over a fixed window.
-- The memory store and the Firestore transaction, which both use it, are the children
-- Memory and Transaction; Decision holds the theorems about the decision itself.
pub mod Decision
pub mod Memory
pub mod Transaction
pub mod Fallback
pub mod AiBudgets
use flash_card.Prelude.{
  ℕ, ◌+◌, ◌-◌, ◌*◌, max, Bool, true, false, ◌&&◌, ◌||◌, Option, none, some, Outcome, ok, throw, ltb,
  leb, if◌then◌else◌, String, List, ◌∷◌, [],
}
use flash_card.Prelude.Number.{Number, nat, safe_natural?, safe_positive?}

abbrev pub rate_limit_window_ms : ℕ
rate_limit_window_ms = 60 * 60 * 1000

-- `RateLimitState`, as it may be read back from storage.
pub record RateLimitState : Type 0 where
  pub window_started_at : Number
  pub calls : Number

-- A `RateLimitState` that `isValidState` lets through.
pub record Window : Type 0 where
  pub window_started_at : ℕ
  pub calls : ℕ

abbrev pub to_state : Window → RateLimitState
to_state w = record { window_started_at = nat w.window_started_at; calls = nat w.calls }

pub record RateLimitDecision : Type 0 where
  pub allowed : Bool
  pub state : Window
  pub retry_after_ms : ℕ

-- What the functions of the file throw.
pub data Error : Type 0 where
  invalid_capacity invalid_maximum invalid_time : Error
  rate_limit_exceeded : (retry_after_ms : ℕ) → Error
  storage_timeout : Error
  -- any other error, with its `code`, `details` and `message` in text form
  foreign : (code details message : String) → Error

both : Option ℕ → Option ℕ → Option Window
both (some started) (some calls) = some (record { window_started_at = started; calls = calls })
both _ _ = none

-- `isValidState`, with the window that it lets through.
unfoldable pub valid_state? : Option RateLimitState → Option Window
unfolding both
valid_state? none = none
valid_state? (some s) = both (safe_natural? s.window_started_at) (safe_natural? s.calls)

-- `now < state.windowStartedAt || now - state.windowStartedAt >= RATE_LIMIT_WINDOW_MS`
abbrev pub is_expired : ℕ → Window → Bool
is_expired now w =
    ltb now w.window_started_at || leb rate_limit_window_ms (now - w.window_started_at)

abbrev pub fresh_window : ℕ → RateLimitDecision
fresh_window now = record {
  allowed = true;
  state = record { window_started_at = now; calls = 1 };
  retry_after_ms = 0;
}

-- `evaluateRateLimit` past its two argument checks.
unfoldable pub decide_window : Option Window → ℕ → ℕ → RateLimitDecision
decide_window none now maximum = fresh_window now
decide_window (some w) now maximum =
    if is_expired now w
    then fresh_window now
    else if leb maximum w.calls
    then record {
      allowed = false;
      state = w;
      retry_after_ms = max 1 (w.window_started_at + rate_limit_window_ms - now);
    }
    else record { allowed = true; state = record w { calls = w.calls + 1 }; retry_after_ms = 0 }

unfoldable pub evaluate_rate_limit :
    Option RateLimitState → Number → Number → Outcome Error RateLimitDecision
evaluate_rate_limit current now maximum = elim (safe_positive? maximum) [
  | none ↦ throw invalid_maximum
  | some limit ↦ elim (safe_natural? now) [
    | none ↦ throw invalid_time
    | some time ↦ ok (decide_window (valid_state? current) time limit)
  ]
]

-- `budgetDocumentId`: the digest of the three updates, in order. SHA-256 itself is the
-- platform's, and so a parameter.
unfoldable pub budget_document_id : (List String → String) → String → String → String
budget_document_id sha256_hex user_id scope = sha256_hex (user_id ∷ "\0" ∷ scope ∷ [])
