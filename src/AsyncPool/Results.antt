-- ===== src/AsyncPool/Results.antt =====
-- The results and the failure of a pool of asyncPool.ts, under any schedule.
use flash_card.Prelude.{
  ℕ, ◌≤◌, ◌<◌, ◌≡◌, ◌↔◌, inl, inr, refl, Bool, none, some, List, [], ◌∷◌, Outcome, ok, throw,
  length, get_elem?, arith, Option-cases,
}
use flash_card.AsyncPool.Machine.{Worker, awaiting, ended, Pool, start_pool, Reach}
use flash_card.AsyncPool.Invariant.{Inv, start_pool-Inv, Reach-Inv}

module _ {E R : Type 0} (until_failure : Bool) (items : ℕ) (mapped : ℕ → Outcome E R) where
  abbrev pub AllEnded : Pool E R → Type 0
  AllEnded p = (w : ℕ) (s : Worker) → get_elem? p.workers w ≡ some s → s ≡ ended

  some_worker :
      (p : Pool E R)
      → Inv until_failure items mapped p
      → (s : Worker) × (get_elem? p.workers 0 ≡ some s)
  some_worker p v = first p.workers v.manned
    where
      first : (l : List Worker) → 0 < length l → (s : Worker) × (get_elem? l 0 ≡ some s)
      first [] h = elim h [ ]
      first (x ∷ l) h = (x, refl)

  complete_of_Inv :
      (p : Pool E R)
      → Inv until_failure items mapped p
      → AllEnded p
      → p.failure ≡ none
      → (i : ℕ) → i < items
      → (r : R) × (mapped i ≡ ok r) × (get_elem? p.results i ≡ some (some r))
  complete_of_Inv p v done fine i h =
      let (s, first) = some_worker p v in
      let over : get_elem? p.workers 0 ≡ some ended = ground (arith, done 0 s first) in
      let all : items ≤ p.next_index = ground (arith, v.drained 0 over) in
      elim (v.taken i (omega arith)) [
        | inl stored ↦ stored
        | inr (inl (w, waits)) ↦ absurd (ground (arith, done w (awaiting i) waits))
        | inr (inr failed) ↦ absurd (failed fine)
      ]

  -- When all workers have ended and none has failed, the results hold the mapped value of every
  -- item, each at the item's own index, whatever the schedule was and however many workers ran.
  pub pool_complete :
      (requested : ℕ) (p : Pool E R)
      → Reach until_failure items mapped (start_pool items requested) p
      → AllEnded p
      → p.failure ≡ none
      → (length p.results ≡ items)
        × ((i : ℕ)
            → i < items
            → (r : R) × (mapped i ≡ ok r) × (get_elem? p.results i ≡ some (some r)))
  pool_complete requested p r done fine =
      let v =
        Reach-Inv until_failure items mapped (start_pool-Inv until_failure items mapped requested)
          r in
      (v.sized, complete_of_Inv p v done fine)

  -- When all workers have ended, the pool has failed exactly if the mapping of some item failed, and
  -- then the error that it throws is that of an item.
  pub pool_fails_iff :
      (requested : ℕ) (p : Pool E R)
      → Reach until_failure items mapped (start_pool items requested) p
      → AllEnded p
      → ((p.failure ≡ none) ↔ ((i : ℕ) → i < items → (r : R) × (mapped i ≡ ok r)))
        × ((e : E) → p.failure ≡ some e → (i : ℕ) × (i < items) × (mapped i ≡ throw e))
  pool_fails_iff requested p r done =
      let v =
        Reach-Inv until_failure items mapped (start_pool-Inv until_failure items mapped requested)
          r in
      (
        (
          λ fine i h. let (x, made, stored) = complete_of_Inv p v done fine i h in (x, made),
          λ all. elim (Option-cases p.failure) [
            | inl fine ↦ fine
            | inr (e, failed) ↦
                let (i, h, bad) = v.thrown e failed in
                let (x, good) = all i h in absurd (ground arith)
          ],
        ),
        v.thrown,
      )
