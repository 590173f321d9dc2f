-- ===== src/AsyncPool/Invariant.antt =====
-- What holds of a pool of asyncPool.ts between two steps.
use flash_card.Prelude.{
  ℕ, zero, suc, ◌≤◌, ◌<◌, ◌≡◌, ◌≢◌, ◌⊎◌, inl, inr, refl, subst, Bool, true, false, none, some, List,
  [], ◌∷◌, Outcome, ok, throw, length, get_elem?, set, length-set, get_elem?-set_self,
  get_elem?-set_ne, replicate, arith, if◌then◌else◌, ◌==◌, ℕ_discrete, Option-cases,
}
use flash_card.AsyncPool.Machine.{
  testing, awaiting, ended, Pool, start_pool, may_claim, claim, leave, store, fail, settle, Step,
  claims, leaves, settles, Reach, here, next, concurrency,
}

get_elem?-lt {ℓ} :
    {A : Type ℓ} (xs : List A) (i : ℕ) {x : A} → get_elem? xs i ≡ some x → i < length xs
get_elem?-lt [] i h = absurd (ground arith)
get_elem?-lt (x ∷ xs) zero h = omega arith
get_elem?-lt (x ∷ xs) (suc i) h = omega (arith, get_elem?-lt xs i h)

get_elem?-set :
    {A : Type 0} (xs : List A) (i j : ℕ) (v : A)
    → i < length xs
    → get_elem? (set xs i v) j ≡ (if i == j then some v else get_elem? xs j)
get_elem?-set xs i j v h = elim (ℕ_discrete i j) [
  | yes e ↦ ground (
    arith,
    get_elem?-set_self xs i v h,
    subst (λ k. get_elem? (set xs i v) k ≡ some v) e (get_elem?-set_self xs i v h),
  )
  | no n ↦ ground (arith, get_elem?-set_ne xs v n)
]

length-replicate : {A : Type 0} (n : ℕ) (a : A) → length (replicate n a) ≡ n
length-replicate zero a = refl
length-replicate (suc n) a = omega (arith, length-replicate n a)

get_elem?-replicate :
    {A : Type 0} (n : ℕ) (a : A) (i : ℕ) (b : A) → get_elem? (replicate n a) i ≡ some b → a ≡ b
get_elem?-replicate zero a i b h = absurd (ground arith)
get_elem?-replicate (suc n) a zero b h = ground arith
get_elem?-replicate (suc n) a (suc i) b h = get_elem?-replicate n a i b h

concurrency_pos : (items requested : ℕ) → 0 < concurrency items requested
unfolding concurrency
concurrency_pos items requested = omega arith

module _ {E R : Type 0} (until_failure : Bool) (items : ℕ) (mapped : ℕ → Outcome E R) where
  -- An item that was taken is stored, or awaited by a worker, or the pool has failed.
  abbrev Accounted : Pool E R → ℕ → Type 0
  Accounted p i =
      ((r : R) × (mapped i ≡ ok r) × (get_elem? p.results i ≡ some (some r)))
      ⊎ (((w : ℕ) × (get_elem? p.workers w ≡ some (awaiting i))) ⊎ (p.failure ≢ none))

  pub record Inv (p : Pool E R) : Type 0 where
    pub sized : length p.results ≡ items
    pub manned : 0 < length p.workers
    pub taken : (i : ℕ) → i < p.next_index → Accounted p i
    pub awaited : (w i : ℕ) → get_elem? p.workers w ≡ some (awaiting i) → i < items
    pub drained :
        (w : ℕ) → get_elem? p.workers w ≡ some ended → (items ≤ p.next_index) ⊎ (p.failure ≢ none)
    pub thrown : (e : E) → p.failure ≡ some e → (i : ℕ) × (i < items) × (mapped i ≡ throw e)

  module _ (p : Pool E R) (w : ℕ) (v : Inv p) where
    claim-Inv :
        get_elem? p.workers w ≡ some testing
        → may_claim until_failure items p ≡ true
        → Inv (claim p w)
    unfolding claim
    claim-Inv at may = record {
      sized = v.sized;
      manned = omega (arith, v.manned, length-set p.workers w (awaiting p.next_index));
      taken = λ i h. elim (ℕ_discrete i p.next_index) [
        | yes e ↦
            inr (
              inl
                (w, ground (arith, get_elem?-set_self p.workers w (awaiting p.next_index) inside)))
        | no n ↦ elim (v.taken i (omega arith)) [
          | inl stored ↦ inl stored
          | inr (inl (u, waits)) ↦
              inr (
                inl (u, ground (arith, get_elem?-set p.workers w u (awaiting p.next_index) inside)))
          | inr (inr failed) ↦ inr (inr failed)
        ]
      ];
      awaited = λ u i h.
          ground (arith, get_elem?-set p.workers w u (awaiting p.next_index) inside, v.awaited u i);
      drained = λ u h.
          ground (arith, get_elem?-set p.workers w u (awaiting p.next_index) inside, v.drained u);
      thrown = v.thrown;
    }
      where
        inside : w < length p.workers
        inside = get_elem?-lt p.workers w at

    leave-Inv :
        get_elem? p.workers w ≡ some testing
        → may_claim until_failure items p ≡ false
        → Inv (leave p w)
    unfolding leave
    leave-Inv at may = record {
      sized = v.sized;
      manned = omega (arith, v.manned, length-set p.workers w ended);
      taken = λ i h. elim (v.taken i h) [
        | inl stored ↦ inl stored
        | inr (inl (u, waits)) ↦
            inr (inl (u, ground (arith, get_elem?-set p.workers w u ended inside)))
        | inr (inr failed) ↦ inr (inr failed)
      ];
      awaited = λ u i h. ground (arith, get_elem?-set p.workers w u ended inside, v.awaited u i);
      drained = λ u h. ground (arith, get_elem?-set p.workers w u ended inside, v.drained u);
      thrown = v.thrown;
    }
      where
        inside : w < length p.workers
        inside = get_elem?-lt p.workers w at

    store-Inv :
        (i : ℕ) (r : R)
        → get_elem? p.workers w ≡ some (awaiting i)
        → mapped i ≡ ok r
        → Inv (store p w i r)
    unfolding store
    store-Inv i r at good = record {
      sized = ground (arith, v.sized, length-set p.results i (some r));
      manned = omega (arith, v.manned, length-set p.workers w testing);
      taken = λ j h. elim (ℕ_discrete i j) [
        | yes e ↦ inl (
          r,
          subst (λ k. mapped k ≡ ok r) e good,
          ground (arith, get_elem?-set p.results i j (some r) fits),
        )
        | no n ↦ elim (v.taken j h) [
          | inl (x, made, stored) ↦
              inl (x, made, ground (arith, get_elem?-set p.results i j (some r) fits))
          | inr (inl (u, waits)) ↦
              inr (inl (u, ground (arith, get_elem?-set p.workers w u testing inside)))
          | inr (inr failed) ↦ inr (inr failed)
        ]
      ];
      awaited = λ u j h. ground (arith, get_elem?-set p.workers w u testing inside, v.awaited u j);
      drained = λ u h. ground (arith, get_elem?-set p.workers w u testing inside, v.drained u);
      thrown = v.thrown;
    }
      where
        inside : w < length p.workers
        inside = get_elem?-lt p.workers w at

        fits : i < length p.results
        fits = omega (arith, v.awaited w i at, v.sized)

    fail-Inv :
        (i : ℕ) (e : E)
        → get_elem? p.workers w ≡ some (awaiting i)
        → mapped i ≡ throw e
        → Inv (fail p w e)
    unfolding fail
    fail-Inv i e at bad = record {
      sized = v.sized;
      manned = omega (arith, v.manned, length-set p.workers w ended);
      taken = λ j h. inr (inr (ground arith));
      awaited = λ u j h. ground (arith, get_elem?-set p.workers w u ended inside, v.awaited u j);
      drained = λ u h. inr (ground arith);
      thrown = λ x h. elim (Option-cases p.failure) [
        | inl none_yet ↦ (i, v.awaited w i at, ground arith)
        | inr (first, had) ↦ v.thrown x (ground arith)
      ];
    }
      where
        inside : w < length p.workers
        inside = get_elem?-lt p.workers w at

  settle-Inv :
      (p : Pool E R) (w i : ℕ) (o : Outcome E R)
      → get_elem? p.workers w ≡ some (awaiting i)
      → mapped i ≡ o
      → Inv p
      → Inv (settle p w i o)
  unfolding settle
  settle-Inv p w i (ok r) at made v = store-Inv p w v i r at made
  settle-Inv p w i (throw e) at made v = fail-Inv p w v i e at made

  Step-Inv : {p q : Pool E R} → Step until_failure items mapped p q → Inv p → Inv q
  Step-Inv {p} (claims w at may) v = claim-Inv p w v at may
  Step-Inv {p} (leaves w at may) v = leave-Inv p w v at may
  Step-Inv {p} (settles w i at) v = settle-Inv p w i (mapped i) at refl v

  pub Reach-Inv : {p q : Pool E R} → Inv p → Reach until_failure items mapped p q → Inv q
  Reach-Inv v here = v
  Reach-Inv v (next r s) = Step-Inv s (Reach-Inv v r)

  pub start_pool-Inv : (requested : ℕ) → Inv (start_pool items requested)
  unfolding start_pool concurrency
  start_pool-Inv requested = record {
    sized = length-replicate items none;
    manned = omega (
      arith,
      length-replicate (concurrency items requested) testing,
      concurrency_pos items requested,
    );
    taken = λ i h. elim h [ ];
    awaited = λ w i h. absurd (
        ground (arith, get_elem?-replicate (concurrency items requested) testing w (awaiting i) h));
    drained = λ w h.
        absurd
          (ground (arith, get_elem?-replicate (concurrency items requested) testing w ended h));
    thrown = λ e h. absurd (ground arith);
  }
