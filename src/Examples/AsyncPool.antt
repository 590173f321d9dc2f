-- ===== src/Examples/AsyncPool.antt =====
-- A pool of two workers on two items.
use flash_card.Prelude.{
  ℕ, zero, suc, ◌+◌, ◌*◌, ◌≤◌, ◌<◌, ◌≡◌, ◌⊎◌, ◌↔◌, refl, true, false, none, some, [], ◌∷◌, String,
  Outcome, ok, throw, length, get_elem?, arith,
}
use flash_card.AsyncPool.Machine.{
  Worker, awaiting, ended, Pool, concurrency, start_pool, claim, leave, store, fail,
  settle as settle_item, claims, leaves, settles, Reach, here, next,
}
use flash_card.AsyncPool.Results.{AllEnded, pool_complete, pool_fails_iff}
use flash_card.AsyncPool.Progress.{steps, pool_finishes, pool_terminates}

-- The first item gives a result, the second an error.
abbrev half : ℕ → Outcome String ℕ
half zero = ok 10
half (suc i) = throw "no"

abbrev both : ℕ → Outcome String ℕ
both i = ok (i + 10)

-- Both items are taken, the second is done first.
abbrev complete : Pool String ℕ
complete = record {
  next_index = 2;
  results = some 10 ∷ some 11 ∷ [];
  failure = none;
  workers = ended ∷ ended ∷ [];
}

complete-AllEnded : (w : ℕ) (s : Worker) → get_elem? complete.workers w ≡ some s → s ≡ ended
complete-AllEnded zero s h = ground arith
complete-AllEnded (suc zero) s h = ground arith
complete-AllEnded (suc (suc w)) s h = absurd (ground arith)

reaches_complete : Reach false 2 both (start_pool 2 2) complete
unfolding start_pool concurrency claim leave store settle_item
reaches_complete =
    next
      (next
        (next (next (next (next here (claims 0 refl refl)) (claims 1 refl refl)) (settles 1 1 refl))
          (settles 0 0 refl))
        (leaves 0 refl refl))
      (leaves 1 refl refl)

pool_complete_example :
    (length complete.results ≡ 2)
    × ((i : ℕ) → i < 2 → (r : ℕ) × (both i ≡ ok r) × (get_elem? complete.results i ≡ some (some r)))
pool_complete_example =
    pool_complete false 2 both 2 complete reaches_complete complete-AllEnded refl

-- The second item fails before the first is done, and its worker ends.
abbrev failed : Pool String ℕ
failed = record {
  next_index = 2;
  results = some 10 ∷ none ∷ [];
  failure = some "no";
  workers = ended ∷ ended ∷ [];
}

reaches_failed : Reach true 2 half (start_pool 2 2) failed
unfolding start_pool concurrency claim leave store fail settle_item
reaches_failed =
    next
      (next (next (next (next here (claims 0 refl refl)) (claims 1 refl refl)) (settles 1 1 refl))
        (settles 0 0 refl))
      (leaves 0 refl refl)

pool_fails_iff_example :
    ((failed.failure ≡ none) ↔ ((i : ℕ) → i < 2 → (r : ℕ) × (half i ≡ ok r)))
    × ((e : String) → failed.failure ≡ some e → (i : ℕ) × (i < 2) × (half i ≡ throw e))
pool_fails_iff_example = pool_fails_iff true 2 half 2 failed reaches_failed complete-AllEnded

-- Both workers have claimed an item, and one has failed.
abbrev half_way : Pool String ℕ
half_way = record {
  next_index = 2;
  results = none ∷ none ∷ [];
  failure = some "no";
  workers = awaiting 0 ∷ ended ∷ [];
}

reaches_half_way : Reach true 2 half (start_pool 2 2) half_way
unfolding start_pool concurrency claim leave store fail settle_item
reaches_half_way =
    next (next (next here (claims 0 refl refl)) (claims 1 refl refl)) (settles 1 1 refl)

pool_finishes_example :
    (q : Pool String ℕ) × Reach true 2 half half_way q
    × AllEnded true 2 half q
    × (((q.failure ≡ none)
          × ((i : ℕ) → i < 2 → (r : ℕ) × (half i ≡ ok r) × (get_elem? q.results i ≡ some (some r))))
        ⊎ ((e : String) × (q.failure ≡ some e) × (i : ℕ) × (i < 2) × (half i ≡ throw e)))
pool_finishes_example = pool_finishes true 2 half 2 half_way reaches_half_way

pool_terminates_example : steps true 2 half reaches_failed ≤ 2 * 2 + concurrency 2 2
pool_terminates_example = pool_terminates true 2 half 2 reaches_failed
