-- ===== src/AsyncPool/Machine.antt =====
-- The workers of asyncPool.ts. A worker runs alone from one `await` to the next, so a step is one
-- such stretch, and a schedule is any sequence of steps. `until_failure` tells the two functions of
-- the file apart: with it a failure aborts the controller, and no worker takes another item.
-- The settled value of `mapper(items[i], i)` is the parameter `mapped`.
use flash_card.Prelude.{
  ℕ, ◌+◌, ◌≡◌, min, max, Bool, true, false, not, ◌&&◌, Option, none, some, List, Outcome, ok, throw,
  get_elem?, set, replicate, ltb, ◌==◌, if◌then◌else◌,
}

-- Where a worker stands: before its `while` test, at the `await` of an item, or at its end.
pub data Worker : Type 0 where
  testing : Worker
  awaiting : ℕ → Worker
  ended : Worker

pub record Pool (E R : Type 0) : Type 0 where
  pub next_index : ℕ
  pub results : List (Option R)
  pub failure : Option E  -- `failed` and `firstError`
  pub workers : List Worker

-- `Math.max(1, Math.min(items.length, Math.floor(requestedConcurrency) || 1))`, for a request that
-- is a natural number
unfoldable pub concurrency : ℕ → ℕ → ℕ
concurrency items requested = max 1 (min items (if requested == 0 then 1 else requested))

abbrev pub is_some : {A : Type 0} → Option A → Bool
is_some none = false
is_some (some _) = true

module _ {E R : Type 0} where
  -- The pool after its workers are made.
  unfoldable pub start_pool : ℕ → ℕ → Pool E R
  start_pool items requested = record {
    next_index = 0;
    results = replicate items none;
    failure = none;
    workers = replicate (concurrency items requested) testing;
  }

  -- `while (!controller.signal.aborted && nextIndex < items.length)`
  abbrev pub may_claim : Bool → ℕ → Pool E R → Bool
  may_claim until_failure items p =
      not (until_failure && is_some p.failure) && ltb p.next_index items

  -- The worker `w` takes the next item.
  unfoldable pub claim : Pool E R → ℕ → Pool E R
  claim p w = record p {
    next_index = p.next_index + 1;
    workers = set p.workers w (awaiting p.next_index);
  }

  -- The loop test of `w` fails.
  unfoldable pub leave : Pool E R → ℕ → Pool E R
  leave p w = record p { workers = set p.workers w ended }

  -- `results[index] = await …`
  unfoldable pub store : Pool E R → ℕ → ℕ → R → Pool E R
  store p w i r = record p { results = set p.results i (some r); workers = set p.workers w testing }

  -- `if (!failed) { failed = true; firstError = error; … } throw error;`
  unfoldable pub fail : Pool E R → ℕ → E → Pool E R
  fail p w e = record p {
    failure = elim p.failure [ none ↦ some e | some first ↦ some first ];
    workers = set p.workers w ended;
  }

  unfoldable pub settle : Pool E R → ℕ → ℕ → Outcome E R → Pool E R
  settle p w i (ok r) = store p w i r
  settle p w i (throw e) = fail p w e

  module _ (until_failure : Bool) (items : ℕ) (mapped : ℕ → Outcome E R) where
    pub data Step (p : Pool E R) : Pool E R → Type 0 where
      claims :
          (w : ℕ)
          → get_elem? p.workers w ≡ some testing
          → may_claim until_failure items p ≡ true
          → Step p (claim p w)
      leaves :
          (w : ℕ)
          → get_elem? p.workers w ≡ some testing
          → may_claim until_failure items p ≡ false
          → Step p (leave p w)
      settles :
          (w i : ℕ) → get_elem? p.workers w ≡ some (awaiting i) → Step p (settle p w i (mapped i))

    pub data Reach (p : Pool E R) : Pool E R → Type 0 where
      here : Reach p p
      next : {q r : Pool E R} → Reach p q → Step q r → Reach p r
