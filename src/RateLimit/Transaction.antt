-- ===== src/RateLimit/Transaction.antt =====
-- functions/src/rateLimiter.ts: `consumePersistentRateLimitsInTransaction`, and the budgets that
-- functions/src/serviceBudget.ts consumes through it. The database is the collection of budget
-- documents; a transaction that throws leaves it as it was, so only an `ok` gives a new one.
pub mod Laws
use flash_card.Prelude.{
  ℕ, ◌+◌, ◌*◌, ◌≡◌, Bool, true, false, not, Option, none, some, List, [], ◌∷◌, String, Outcome, ok,
  throw, ◌>>=◌, find, if◌then◌else◌,
}
use flash_card.Prelude.Number.{Number, nat}
use flash_card.Prelude.Text.{text_discrete}
use flash_card.Prelude.Keyed
use flash_card.RateLimit.{
  RateLimitState, Window, RateLimitDecision, Error, rate_limit_exceeded, rate_limit_window_ms,
  evaluate_rate_limit, budget_document_id,
}

abbrev pub rate_limit_retention_windows : ℕ
rate_limit_retention_windows = 2

-- A stored document. The two counters are `none` where they hold no number.
pub record BudgetDocument : Type 0 where
  pub scope : String
  pub window_started_at_ms : Option Number
  pub calls : Option Number
  pub expire_at_ms : ℕ

abbrev pub Database : Type 0
Database = List (String × BudgetDocument)

pub record Budget : Type 0 where
  pub user_id : String
  pub scope : String
  pub maximum : Number

pub record Entry : Type 0 where
  pub budget : Budget
  pub document : String

pub record Decided : Type 0 where
  pub entry : Entry
  pub decision : RateLimitDecision

counters : Option Number → Option Number → Option RateLimitState
counters (some started) (some calls) = some (record { window_started_at = started; calls = calls })
counters _ _ = none

unfoldable pub persisted_state : Option BudgetDocument → Option RateLimitState
unfolding counters
persisted_state none = none
persisted_state (some stored) = counters stored.window_started_at_ms stored.calls

abbrev pub fetch : Database → String → Option BudgetDocument
fetch database document = Keyed.get text_discrete document database

-- `entries`: each budget with its document.
unfoldable pub entries_of : (List String → String) → List Budget → List Entry
entries_of sha256_hex [] = []
entries_of sha256_hex (b ∷ budgets) =
    record { budget = b; document = budget_document_id sha256_hex b.user_id b.scope }
    ∷ entries_of sha256_hex budgets

-- `decisions`: every read comes before the first write, and the first error thrown ends it.
unfoldable pub decide_entries : Database → ℕ → List Entry → Outcome Error (List Decided)
decide_entries database now [] = ok []
decide_entries database now (e ∷ entries) = do
  d ← evaluate_rate_limit (persisted_state (fetch database e.document)) (nat now) e.budget.maximum
  rest ← decide_entries database now entries
  ok (record { entry = e; decision = d } ∷ rest)

abbrev pub is_rejected : Decided → Bool
is_rejected d = not d.decision.allowed

unfoldable pub document_of : Decided → BudgetDocument
document_of d = record {
  scope = d.entry.budget.scope;
  window_started_at_ms = some (nat d.decision.state.window_started_at);
  calls = some (nat d.decision.state.calls);
  expire_at_ms =
      d.decision.state.window_started_at + rate_limit_window_ms * rate_limit_retention_windows;
}

-- The loop of `transaction.set`.
unfoldable pub write_decisions : List Decided → Database → Database
write_decisions [] database = database
write_decisions (d ∷ decided) database =
    write_decisions decided (Keyed.put text_discrete d.entry.document (document_of d) database)

commit : Database → Option Decided → List Decided → Outcome Error Database
commit database (some rejected) decided =
    throw (rate_limit_exceeded rejected.decision.retry_after_ms)
commit database none decided = ok (write_decisions decided database)

-- What follows the decisions: the first refusal is thrown, else every document is written.
unfoldable pub settle : Database → List Decided → Outcome Error Database
unfolding commit
settle database decided = commit database (find is_rejected decided) decided

unfoldable pub consume_persistent_rate_limits_in_transaction :
    (List String → String) → Database → List Budget → ℕ → Outcome Error Database
consume_persistent_rate_limits_in_transaction sha256_hex database budgets now = do
  decided ← decide_entries database now (entries_of sha256_hex budgets)
  settle database decided

-- `consumePersistentRateLimits`: an empty list opens no transaction.
unfoldable pub consume_persistent_rate_limits :
    (List String → String) → Database → List Budget → ℕ → Outcome Error Database
consume_persistent_rate_limits sha256_hex database [] now = ok database
consume_persistent_rate_limits sha256_hex database (b ∷ budgets) now =
    consume_persistent_rate_limits_in_transaction sha256_hex database (b ∷ budgets) now

unfoldable pub consume_persistent_rate_limit :
    (List String → String) → Database → String → String → Number → ℕ → Outcome Error Database
consume_persistent_rate_limit sha256_hex database user_id scope maximum now =
    consume_persistent_rate_limits sha256_hex database
      (record { user_id = user_id; scope = scope; maximum = maximum } ∷ []) now

abbrev pub service_budget_owner_id : String
service_budget_owner_id = "__service__"

unfoldable pub consume_service_budget :
    (List String → String) → Database → String → Number → ℕ → Outcome Error Database
consume_service_budget sha256_hex database scope maximum now =
    consume_persistent_rate_limit sha256_hex database service_budget_owner_id scope maximum now

unfoldable pub consume_owner_and_service_budget :
    (List String → String)
    → Database
    → String
    → String
    → Number
    → String
    → Number
    → ℕ
    → Outcome Error Database
consume_owner_and_service_budget sha256_hex database owner_id owner_scope owner_maximum
      service_scope service_maximum now =
    consume_persistent_rate_limits sha256_hex database
      (record { user_id = owner_id; scope = owner_scope; maximum = owner_maximum }
        ∷ record {
          user_id = service_budget_owner_id;
          scope = service_scope;
          maximum = service_maximum;
        }
        ∷ [])
      now
