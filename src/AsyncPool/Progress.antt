-- ===== src/AsyncPool/Progress.antt =====
-- The steps that remain to a pool of asyncPool.ts, and a measure of them.
use flash_card.Prelude.{
  ℕ, zero, suc, Option-cases, none, ◌+◌, ◌-◌, ◌*◌, ◌≤◌, ◌<◌, ◌≡◌, ◌⊎◌, inl, inr, refl, Bool, some,
  List, [], ◌∷◌, Outcome, ok, throw, get_elem?, set, replicate, arith, Bool-cases,
}
use flash_card.AsyncPool.Machine.{
  Worker, testing, awaiting, ended, Pool, start_pool, may_claim, claim, leave, store, fail, settle,
  Step, claims, leaves, settles, Reach, here, next, concurrency,
}
use flash_card.AsyncPool.Results.{AllEnded, pool_complete, pool_fails_iff}

abbrev pub weight : Worker → ℕ
weight testing = 1
weight (awaiting i) = 2
weight ended = 0

abbrev pub load : List Worker → ℕ
load [] = 0
load (s ∷ workers) = weight s + load workers

load-set :
    (workers : List Worker) (w : ℕ) (s t : Worker)
    → get_elem? workers w ≡ some s
    → load (set workers w t) + weight s ≡ load workers + weight t
load-set [] w s t h = absurd (ground arith)
load-set (x ∷ workers) zero s t h = ground arith
load-set (x ∷ workers) (suc w) s t h = omega (arith, load-set workers w s t h)

find_running :
    (workers : List Worker)
    → ((w : ℕ) (s : Worker) → get_elem? workers w ≡ some s → s ≡ ended)
      ⊎ ((w : ℕ) × ((get_elem? workers w ≡ some testing)
            ⊎ ((i : ℕ) × (get_elem? workers w ≡ some (awaiting i)))))
find_running [] = inl (λ w s h. absurd (ground arith))
find_running (testing ∷ workers) = inr (0, inl refl)
find_running (awaiting i ∷ workers) = inr (0, inr (i, refl))
find_running (ended ∷ workers) = elim (find_running workers) [
  | inl rest ↦ inl (none_left workers rest)
  | inr (w, found) ↦ inr (suc w, found)
]
  where
    none_left :
        (l : List Worker)
        → ((w : ℕ) (s : Worker) → get_elem? l w ≡ some s → s ≡ ended)
        → (w : ℕ) (s : Worker) → get_elem? (ended ∷ l) w ≡ some s
        → s ≡ ended
    none_left l rest zero s h = ground arith
    none_left l rest (suc w) s h = rest w s h

module _ {E R : Type 0} (until_failure : Bool) (items : ℕ) (mapped : ℕ → Outcome E R) where
  abbrev pub measure : Pool E R → ℕ
  measure p = 2 * (items - p.next_index) + load p.workers

  -- As long as a worker has not ended, some step can be taken.
  pool_progress :
      (p : Pool E R)
      → AllEnded until_failure items mapped p
        ⊎ ((q : Pool E R) × Step until_failure items mapped p q)
  pool_progress p = elim (find_running p.workers) [
    | inl done ↦ inl done
    | inr (w, inl at) ↦ elim (Bool-cases (may_claim until_failure items p)) [
      | inl may ↦ inr (claim p w, claims w at may)
      | inr may ↦ inr (leave p w, leaves w at may)
    ]
    | inr (w, inr (i, at)) ↦ inr (settle p w i (mapped i), settles w i at)
  ]

  settle-lowers :
      (p : Pool E R) (w i : ℕ) (o : Outcome E R)
      → get_elem? p.workers w ≡ some (awaiting i)
      → measure (settle p w i o) < measure p
  unfolding settle store fail
  settle-lowers p w i (ok r) at = omega (arith, load-set p.workers w (awaiting i) testing at)
  settle-lowers p w i (throw e) at = omega (arith, load-set p.workers w (awaiting i) ended at)

  -- Each step lowers the measure, so no schedule takes more steps than two for each item and one for
  -- each worker.
  pub Step-lowers : {p q : Pool E R} → Step until_failure items mapped p q → measure q < measure p
  Step-lowers {p} (claims w at may) =
      let room : p.next_index < items = ground arith in
      unfold claim in omega (arith, load-set p.workers w testing (awaiting p.next_index) at)
  Step-lowers {p} (leaves w at may) =
      unfold leave in omega (arith, load-set p.workers w testing ended at)
  Step-lowers {p} (settles w i at) = settle-lowers p w i (mapped i) at

  abbrev pub steps : {p q : Pool E R} → Reach until_failure items mapped p q → ℕ
  steps here = 0
  steps (next r s) = suc (steps r)

  pub steps-le :
      {p q : Pool E R} (r : Reach until_failure items mapped p q) → steps r + measure q ≤ measure p
  steps-le here = omega arith
  steps-le (next r s) = omega (arith, steps-le r, Step-lowers s)

  load-start : (n : ℕ) → load (replicate n testing) ≡ n
  load-start zero = refl
  load-start (suc n) = omega (arith, load-start n)

  -- A run of the pool takes at most two steps for each item and one for each worker.
  pub pool_terminates :
      (requested : ℕ) {p : Pool E R}
      (r : Reach until_failure items mapped (start_pool items requested) p)
      → steps r ≤ 2 * items + concurrency items requested
  unfolding start_pool
  pool_terminates requested r = omega (arith, steps-le r, load-start (concurrency items requested))

  Reach-trans :
      {p q r : Pool E R}
      → Reach until_failure items mapped p q
      → Reach until_failure items mapped q r
      → Reach until_failure items mapped p r
  Reach-trans a here = a
  Reach-trans a (next b s) = next (Reach-trans a b) s

  -- With enough fuel for the measure, a run goes on to an end.
  run_on :
      (fuel : ℕ) (p : Pool E R)
      → measure p ≤ fuel
      → (q : Pool E R) × Reach until_failure items mapped p q
        × AllEnded until_failure items mapped q
  run_on zero p bound = elim (pool_progress p) [
    | inl done ↦ (p, here, done)
    | inr (q, s) ↦ absurd (omega (arith, bound, Step-lowers s))
  ]
  run_on (suc fuel) p bound = elim (pool_progress p) [
    | inl done ↦ (p, here, done)
    | inr (q, s) ↦
        let (end, r, done) = run_on fuel q (omega (arith, bound, Step-lowers s)) in
        (end, Reach-trans (next here s) r, done)
  ]

  -- From each state that a pool reaches, it can go on to an end, in which all its workers have ended
  -- and either nothing is recorded as a failure and every item's result is stored at its index,
  -- or the recorded failure is that of an item.
  pub pool_finishes :
      (requested : ℕ) (p : Pool E R)
      → Reach until_failure items mapped (start_pool items requested) p
      → (q : Pool E R) × Reach until_failure items mapped p q
        × AllEnded until_failure items mapped q
        × (((q.failure ≡ none)
              × ((i : ℕ)
                  → i < items
                  → (r : R) × (mapped i ≡ ok r) × (get_elem? q.results i ≡ some (some r))))
            ⊎ ((e : E) × (q.failure ≡ some e) × (i : ℕ) × (i < items) × (mapped i ≡ throw e)))
  pool_finishes requested p r =
      let (q, more, done) = run_on (measure p) p (omega arith) in
      let whole = Reach-trans r more in
      (
        q,
        more,
        done,
        elim (Option-cases q.failure) [
          | inl fine ↦
              inl (fine, (pool_complete until_failure items mapped requested q whole done fine).1)
          | inr (e, bad) ↦
              let (i, small, fails) =
                (pool_fails_iff until_failure items mapped requested q whole done).1 e bad in
              inr (e, bad, i, small, fails)
        ],
      )
