-- ===== src/Examples/RateLimit.antt =====
-- One budget, and the memory store, on small inputs.
use flash_card.Prelude.{
  ℕ, ◌+◌, ◌-◌, ◌*◌, ◌≤◌, ◌<◌, ◌≡◌, refl, true, false, some, [], ◌∷◌, ok, throw, arith,
}
use flash_card.Prelude.Number.{nat}
use flash_card.RateLimit.{
  Window, RateLimitDecision, rate_limit_exceeded, to_state, valid_state?, evaluate_rate_limit,
  decide_window,
}
use flash_card.RateLimit.Decision.{admitted, admitted-le-double, retry_after-exact}
use flash_card.RateLimit.Memory.{
  States, lookup_state, current_state, make_room, purge, settle, consume_key,
}
use flash_card.RateLimit.Memory.Laws.{IsBounded, consume_key-IsBounded, consume_key_keeps}
use flash_card.Prelude.Keyed
use flash_card.Prelude.Text.{text_discrete, texts_differ}

abbrev used_twice : Window
used_twice = record { window_started_at = 1000; calls = 2 }

abbrev used_thrice : RateLimitDecision
used_thrice = record {
  allowed = true;
  state = record { window_started_at = 1000; calls = 3 };
  retry_after_ms = 0;
}

third_call : evaluate_rate_limit (some (to_state used_twice)) (nat 1500) (nat 3) ≡ ok used_thrice
unfolding evaluate_rate_limit valid_state? decide_window
third_call = refl

-- The run crosses the end of the stored window.
admitted-le-double_example : admitted 3 (some used_twice) (3600999 ∷ 3601000 ∷ 3601001 ∷ []) ≤ 2 * 3
admitted-le-double_example =
    admitted-le-double 3 (some used_twice) 3600999 (3600999 ∷ 3601000 ∷ 3601001 ∷ []) (omega arith)
      (omega arith, (omega arith, (omega arith, tt)))
      (omega arith, (omega arith, (omega arith, tt)))

refused : (decide_window (some used_twice) 1500 2).allowed ≡ false
unfolding decide_window
refused = refl

retry_after-exact_example :
    let retry = (decide_window (some used_twice) 1500 2).retry_after_ms in
    ((decide_window (some used_twice) (1500 + retry) 2).allowed ≡ true)
    × ((later : ℕ)
        → 1500 ≤ later
        → later < 1500 + retry
        → decide_window (some used_twice) later 2
          ≡ record { allowed = false; state = used_twice; retry_after_ms = 1500 + retry - later })
retry_after-exact_example = retry_after-exact used_twice 1500 2 (omega arith) refused

-- A full store of two budgets, of which the first has expired at 3700000.
abbrev two_budgets : States
two_budgets =
    ("old", record { window_started_at = 1000; calls = 2 })
    ∷ ("live", record { window_started_at = 3000000; calls = 1 })
    ∷ []

two_budgets-IsBounded : IsBounded 2 two_budgets
unfolding Keyed.get text_discrete
two_budgets-IsBounded = record { fits = omega arith; distinct = (ground arith, (refl, tt)) }

consume_key-IsBounded_example : IsBounded 2 (consume_key 2 two_budgets "new" (nat 5) 3700000).0
consume_key-IsBounded_example =
    consume_key-IsBounded 2 two_budgets "new" (nat 5) 3700000 two_budgets-IsBounded

stored : lookup_state "live" two_budgets ≡ some (record { window_started_at = 3000000; calls = 1 })
unfolding Keyed.get text_discrete
stored = refl

consume_key_keeps_example :
    lookup_state "live" (consume_key 2 two_budgets "new" (nat 5) 3700000).0
    ≡ some (record { window_started_at = 3000000; calls = 1 })
consume_key_keeps_example =
    consume_key_keeps 2 two_budgets "new" "live" (nat 5) 3700000
      (record { window_started_at = 3000000; calls = 1 }) two_budgets-IsBounded
      (texts_differ "new" "live" refl) stored refl

charged : (consume_key 2 two_budgets "new" (nat 5) 3700000).1 ≡ ok tt
unfolding consume_key make_room purge settle current_state evaluate_rate_limit decide_window
    valid_state? Keyed.get Keyed.put text_discrete
charged = refl

spent : (consume_key 2 two_budgets "live" (nat 1) 3700000).1 ≡ throw (rate_limit_exceeded 2900000)
unfolding consume_key make_room purge settle current_state evaluate_rate_limit decide_window
    valid_state? Keyed.get Keyed.put text_discrete
spent = refl
