-- ===== src/RateLimit/Memory.antt =====
-- functions/src/rateLimiter.ts: `createMemoryRateLimitStore`, a bounded map from budget documents to
-- windows. The clock that `consume` is given is a natural number, as `Date.now()` is.
pub mod Laws
use flash_card.Prelude.{
  ℕ, suc, ◌+◌, ◌≤◌, ◌≡◌, ◌≢◌, refl, ◌⊎◌, inl, inr, Bool, true, false, not, ◌&&◌, Option, none, some,
  List, [], ◌∷◌, String, Outcome, ok, throw, length, leb, arith, Option-cases, Bool-cases,
  if◌then◌else◌,
}
use flash_card.Prelude.Number.{Number, nat, safe_positive?, safe_natural?}
use flash_card.Prelude.Text.{text_discrete}
use flash_card.Prelude.Keyed
use flash_card.Prelude.Keyed.{IsDistinct}
use flash_card.RateLimit.{
  RateLimitState, Window, RateLimitDecision, Error, rate_limit_exceeded, invalid_capacity, to_state,
  rate_limit_window_ms, is_expired, evaluate_rate_limit, budget_document_id,
}

abbrev pub States : Type 0
States = List (String × Window)

pub record MemoryRateLimitStore : Type 0 where
  pub maximum_entries : ℕ
  pub states : States

abbrev pub lookup_state : String → States → Option Window
lookup_state = Keyed.get text_discrete

unfoldable pub create_memory_rate_limit_store : Number → Outcome Error MemoryRateLimitStore
create_memory_rate_limit_store maximum_entries = elim (safe_positive? maximum_entries) [
  | none ↦ throw invalid_capacity
  | some capacity ↦ ok (record { maximum_entries = capacity; states = [] })
]

-- The loop that deletes the expired entries.
unfoldable pub purge : ℕ → States → States
purge now [] = []
purge now ((key, w) ∷ states) =
    let rest = purge now states in if is_expired now w then rest else (key, w) ∷ rest

unfoldable pub make_room : ℕ → ℕ → String → States → States
make_room capacity now key states =
    if not (Keyed.has text_discrete key states) && leb capacity (length states)
    then purge now states
    else states

-- `states.get(key) ?? null`
unfoldable pub current_state : String → States → Option RateLimitState
current_state key states = elim (lookup_state key states) [
  | none ↦ none
  | some w ↦ some (to_state w)
]

-- What follows the decision: the refusal is thrown, and an admitted call is stored.
unfoldable pub settle :
    String → States → Outcome Error RateLimitDecision → States × Outcome Error (Unit {0})
settle key states (throw e) = (states, throw e)
settle key states (ok d) =
    if d.allowed
    then (Keyed.put text_discrete key d.state states, ok tt)
    else (states, throw (rate_limit_exceeded d.retry_after_ms))

-- `consume` on the key of the budget: the map after it, and the error that it throws.
unfoldable pub consume_key : ℕ → States → String → Number → ℕ → States × Outcome Error (Unit {0})
consume_key capacity states key maximum now =
    let room = make_room capacity now key states in
    if not (Keyed.has text_discrete key room) && leb capacity (length room)
    then (room, throw (rate_limit_exceeded rate_limit_window_ms))
    else settle key room (evaluate_rate_limit (current_state key room) (nat now) maximum)

unfoldable pub consume :
    (List String → String)
    → MemoryRateLimitStore
    → String
    → String
    → Number
    → ℕ
    → MemoryRateLimitStore × Outcome Error (Unit {0})
consume sha256_hex store user_id scope maximum now =
    let (states, result) =
      consume_key store.maximum_entries store.states (budget_document_id sha256_hex user_id scope)
        maximum now in
    (record store { states = states }, result)
