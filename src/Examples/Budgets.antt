-- ===== src/Examples/Budgets.antt =====
-- The budgets of an owner and of the service in one transaction, and the fallback, on small inputs.
use Prim.Native.String.{◌++◌ as join}
use flash_card.Prelude.{
  ℕ, ◌+◌, ◌≡◌, ◌≢◌, ◌⊎◌, refl, true, false, some, List, [], ◌∷◌, String, All, Outcome, ok, throw,
  same,
}
use flash_card.Prelude.Number.{nat}
use flash_card.Prelude.Text.{text_discrete, texts_differ}
use flash_card.Prelude.Keyed
use flash_card.RateLimit.{
  RateLimitDecision, Error, rate_limit_exceeded, evaluate_rate_limit, decide_window, valid_state?,
  budget_document_id,
}
use flash_card.RateLimit.Transaction.{
  BudgetDocument, Database, Budget, Entry, fetch, persisted_state, entries_of, decide_entries,
  document_of, write_decisions, settle, consume_persistent_rate_limits_in_transaction,
  service_budget_owner_id,
}
use flash_card.RateLimit.Transaction.Laws.{
  IsCharged, decision_of, AreDistinct, consume_in_transaction-charges_each,
  consume_in_transaction-refuses,
}
use flash_card.RateLimit.Fallback.{
  resolved, pending, firestore, memory, TextPlatform, with_rate_limit_storage_deadline,
  is_storage_timeout, is_firestore_quota_error, consume_rate_limit_with_memory_fallback,
  fallback_charges,
}

-- In place of the digest, the texts one after the other.
digest : List String → String
digest [] = ""
digest (text ∷ texts) = join text (digest texts)

abbrev budgets : List Budget
budgets =
    record { user_id = "ann"; scope = "words"; maximum = nat 2 }
    ∷ record { user_id = service_budget_owner_id; scope = "words"; maximum = nat 3 }
    ∷ []

owner_document : String
owner_document = "ann\0words"

service_document : String
service_document = "__service__\0words"

abbrev document : ℕ → BudgetDocument
document calls = record {
  scope = "words";
  window_started_at_ms = some (nat 1000);
  calls = some (nat calls);
  expire_at_ms = 7201000;
}

-- The service has made three calls.
abbrev spent : Database
spent = ("__service__\0words", document 3) ∷ []

abbrev unspent : Database
unspent = ("__service__\0words", document 2) ∷ []

abbrev charged : Database
charged =
    ("__service__\0words", document 3)
    ∷ (
      "ann\0words",
      record (document 1) { window_started_at_ms = some (nat 2000); expire_at_ms = 7202000 },
    )
    ∷ []

commits : consume_persistent_rate_limits_in_transaction digest unspent budgets 2000 ≡ ok charged
unfolding consume_persistent_rate_limits_in_transaction decide_entries entries_of persisted_state
    settle write_decisions document_of evaluate_rate_limit decide_window valid_state?
    budget_document_id digest Keyed.get Keyed.put text_discrete
commits = refl

apart : AreDistinct (entries_of digest budgets)
unfolding entries_of budget_document_id digest
apart = ((texts_differ "ann\0words" "__service__\0words" refl, tt), (tt, tt))

consume_in_transaction-charges_each_example :
    All (IsCharged unspent charged 2000) (entries_of digest budgets)
    × ((key : String)
        → All (λ e. key ≢ e.document) (entries_of digest budgets)
        → fetch charged key ≡ fetch unspent key)
consume_in_transaction-charges_each_example =
    consume_in_transaction-charges_each digest unspent charged budgets 2000 apart commits

abbrev owner_entry : Entry
owner_entry = record {
  budget = record { user_id = "ann"; scope = "words"; maximum = nat 2 };
  document = "ann\0words";
}

abbrev service_entry : Entry
service_entry = record {
  budget = record { user_id = service_budget_owner_id; scope = "words"; maximum = nat 3 };
  document = "__service__\0words";
}

abbrev fresh : RateLimitDecision
fresh = record {
  allowed = true;
  state = record { window_started_at = 2000; calls = 1 };
  retry_after_ms = 0;
}

abbrev refusal : RateLimitDecision
refusal = record {
  allowed = false;
  state = record { window_started_at = 1000; calls = 3 };
  retry_after_ms = 3599000;
}

split : entries_of digest budgets ≡ owner_entry ∷ service_entry ∷ []
unfolding entries_of budget_document_id digest
split = refl

owner_admitted : decision_of spent 2000 owner_entry ≡ ok fresh
unfolding persisted_state evaluate_rate_limit decide_window valid_state? Keyed.get text_discrete
owner_admitted = refl

service_refused : decision_of spent 2000 service_entry ≡ ok refusal
unfolding persisted_state evaluate_rate_limit decide_window valid_state? Keyed.get text_discrete
service_refused = refl

-- The owner's budget would admit the call, the service's refuses it.
consume_in_transaction-refuses_example :
    consume_persistent_rate_limits_in_transaction digest spent budgets 2000
    ≡ throw (rate_limit_exceeded 3599000)
consume_in_transaction-refuses_example =
    consume_in_transaction-refuses spent 2000 digest budgets (owner_entry ∷ []) [] service_entry
      refusal split ((fresh, owner_admitted, refl), tt) service_refused refl tt

-- Texts that are lower case, and no text in another.
abbrev platform : TextPlatform
platform = record { lower = λ text. text; includes = λ text part. same text_discrete text part }

abbrev count_call : ℕ → ℕ × Outcome Error (Unit {0})
count_call n = (n + 1, ok tt)

timed_out : (consume_rate_limit_with_memory_fallback platform pending count_call 4).1 ≡ ok memory
unfolding consume_rate_limit_with_memory_fallback with_rate_limit_storage_deadline
timed_out = refl

-- The persistent store does not answer.
fallback_charges_example :
    ((pending ≡ resolved)
      × (memory ≡ firestore)
      × ((consume_rate_limit_with_memory_fallback platform pending count_call 4).0 ≡ 4))
    ⊎ ((e : Error) × (with_rate_limit_storage_deadline pending ≡ throw e)
        × ((is_storage_timeout e ≡ true) ⊎ (is_firestore_quota_error platform e ≡ true))
        × (memory ≡ memory)
        × ((count_call 4).1 ≡ ok tt)
        × ((consume_rate_limit_with_memory_fallback platform pending count_call 4).0
            ≡ (count_call 4).0))
fallback_charges_example = fallback_charges platform pending count_call 4 memory timed_out
