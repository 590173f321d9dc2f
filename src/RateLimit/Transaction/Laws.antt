-- ===== src/RateLimit/Transaction/Laws.antt =====
-- Transactions over several budgets, from `consumePersistentRateLimitsInTransaction` of
-- functions/src/rateLimiter.ts: what one that commits has stored, and what one that refuses gives.
use flash_card.Prelude.{
  ℕ, ◌≡◌, ◌≢◌, refl, true, false, none, some, List, [], ◌∷◌, ◌++◌, ◌∙◌, String, Outcome, ok, throw,
  >>=-eq-ok, find, All, arith, subst, sym,
}
use flash_card.Prelude.Number.{nat}
use flash_card.Prelude.Text.{text_discrete}
use flash_card.Prelude.Keyed
use flash_card.RateLimit.{RateLimitDecision, Error, rate_limit_exceeded, evaluate_rate_limit}
use flash_card.RateLimit.Transaction.{
  Database, Budget, Entry, Decided, fetch, persisted_state, entries_of, decide_entries, is_rejected,
  document_of, write_decisions, settle, consume_persistent_rate_limits_in_transaction,
}

-- No two entries share a document.
abbrev pub AreDistinct : List Entry → Type 0
AreDistinct [] = Unit
AreDistinct (e ∷ entries) = All (λ f. e.document ≢ f.document) entries × AreDistinct entries

-- The decision that `evaluateRateLimit` makes from the stored document of an entry.
abbrev pub decision_of : Database → ℕ → Entry → Outcome Error RateLimitDecision
decision_of database now e =
    evaluate_rate_limit (persisted_state (fetch database e.document)) (nat now) e.budget.maximum

-- Every entry was admitted by its decision, and its document is the decided one.
abbrev pub IsCharged : Database → Database → ℕ → Entry → Type 0
IsCharged before after now e =
    (d : RateLimitDecision) × (decision_of before now e ≡ ok d)
    × (d.allowed ≡ true)
    × (fetch after e.document ≡ some (document_of (record { entry = e; decision = d })))

-- The decisions stand beside the entries, in their order.
abbrev Matches : Database → ℕ → List Entry → List Decided → Type 0
Matches database now [] [] = Unit
Matches database now [] (d ∷ decided) = ⊥
Matches database now (e ∷ entries) [] = ⊥
Matches database now (e ∷ entries) (d ∷ decided) =
    (d.entry ≡ e)
    × (decision_of database now e ≡ ok d.decision)
    × Matches database now entries decided

decide_entries-cons :
    (database : Database) (now : ℕ) (e : Entry) (entries : List Entry) (decided : List Decided)
    → decide_entries database now (e ∷ entries) ≡ ok decided
    → (d : RateLimitDecision) × (rest : List Decided) × (decision_of database now e ≡ ok d)
      × (decide_entries database now entries ≡ ok rest)
      × (decided ≡ record { entry = e; decision = d } ∷ rest)
unfolding decide_entries
decide_entries-cons database now e entries decided h =
    let (d, made, more) = >>=-eq-ok (decision_of database now e) _ h in
    let (rest, others, last) = >>=-eq-ok (decide_entries database now entries) _ more in
    (d, rest, made, others, cc)

decide_entries-Matches :
    (database : Database) (now : ℕ) (entries : List Entry) (decided : List Decided)
    → decide_entries database now entries ≡ ok decided
    → Matches database now entries decided
unfolding decide_entries
decide_entries-Matches database now [] decided h =
    let e : [] ≡ decided = ground arith in subst (Matches database now []) e tt
decide_entries-Matches database now (e ∷ entries) decided h =
    let (d, rest, made, others, whole) = decide_entries-cons database now e entries decided h in
    subst (Matches database now (e ∷ entries)) (sym whole)
      (refl, made, decide_entries-Matches database now entries rest others)

fetch-write_decisions_ne :
    (key : String) (decided : List Decided) (database : Database)
    → All (λ d. key ≢ d.entry.document) decided
    → fetch (write_decisions decided database) key ≡ fetch database key
unfolding write_decisions
fetch-write_decisions_ne key [] database h = refl
fetch-write_decisions_ne key (d ∷ decided) database h = ground (
  arith,
  fetch-write_decisions_ne key decided
      (Keyed.put text_discrete d.entry.document (document_of d) database) h.1,
  Keyed.get-put text_discrete d.entry.document key (document_of d) database,
)

none_rejected :
    (decided : List Decided)
    → find is_rejected decided ≡ none
    → All (λ d. d.decision.allowed ≡ true) decided
none_rejected [] h = tt
none_rejected (d ∷ decided) h = ground (arith, none_rejected decided)

Matches-ne :
    (database : Database) (now : ℕ) (key : String) (entries : List Entry) (decided : List Decided)
    → Matches database now entries decided
    → All (λ f. key ≢ f.document) entries
    → All (λ d. key ≢ d.entry.document) decided
Matches-ne database now key [] [] m n = tt
Matches-ne database now key [] (d ∷ decided) m n = absurd m
Matches-ne database now key (e ∷ entries) [] m n = tt
Matches-ne database now key (e ∷ entries) (d ∷ decided) m n =
    (ground arith, Matches-ne database now key entries decided m.2 n.1)

fetch-write_decisions_head :
    (d : Decided) (decided : List Decided) (database : Database)
    → All (λ x. d.entry.document ≢ x.entry.document) decided
    → fetch (write_decisions (d ∷ decided) database) d.entry.document ≡ some (document_of d)
unfolding write_decisions
fetch-write_decisions_head d decided database n =
    fetch-write_decisions_ne d.entry.document decided
      (Keyed.put text_discrete d.entry.document (document_of d) database) n
    ∙ Keyed.get-put_self text_discrete d.entry.document (document_of d) database

-- After the writes every entry is charged. The reads were all made from `before`.
write_decisions-IsCharged :
    (before after : Database) (now : ℕ) (entries : List Entry) (decided : List Decided)
    → AreDistinct entries
    → Matches before now entries decided
    → All (λ d. d.decision.allowed ≡ true) decided
    → All (IsCharged before (write_decisions decided after) now) entries
unfolding write_decisions
write_decisions-IsCharged before after now [] decided n m a = tt
write_decisions-IsCharged before after now (e ∷ entries) [] n m a = absurd m
write_decisions-IsCharged before after now (e ∷ entries) (d ∷ decided) n m a =
    let named : All (λ x. d.entry.document ≢ x.entry.document) decided =
      Matches-ne before now d.entry.document entries decided m.2
        (subst (λ x. All (λ (f : Entry). x.document ≢ f.document) entries) (sym m.0) n.0) in
    let written : fetch (write_decisions (d ∷ decided) after) e.document
        ≡ some (document_of (record { entry = e; decision = d.decision })) =
      subst
        (λ x.
          fetch (write_decisions (d ∷ decided) after) x.document
          ≡ some (document_of (record { entry = x; decision = d.decision })))
        m.0 (fetch-write_decisions_head d decided after named) in
    (
      (d.decision, m.1, a.0, written),
      write_decisions-IsCharged before
          (Keyed.put text_discrete d.entry.document (document_of d) after) now entries decided n.1
          m.2 a.1,
    )

settle-eq-ok :
    (database after : Database) (decided : List Decided)
    → settle database decided ≡ ok after
    → (find is_rejected decided ≡ none) × (write_decisions decided database ≡ after)
unfolding settle
settle-eq-ok database after decided h = ground arith

-- A transaction that commits was admitted on every budget, by the decision on the document as it
-- stood before, and stores each decided window; every other document is left as it was. The
-- budgets have different documents, as those of an owner and of the service have.
pub consume_in_transaction-charges_each :
    (sha256_hex : List String → String) (before after : Database) (budgets : List Budget) (now : ℕ)
    → AreDistinct (entries_of sha256_hex budgets)
    → consume_persistent_rate_limits_in_transaction sha256_hex before budgets now ≡ ok after
    → All (IsCharged before after now) (entries_of sha256_hex budgets)
      × ((key : String)
          → All (λ e. key ≢ e.document) (entries_of sha256_hex budgets)
          → fetch after key ≡ fetch before key)
unfolding consume_persistent_rate_limits_in_transaction
consume_in_transaction-charges_each sha256_hex before after budgets now n h =
    let entries = entries_of sha256_hex budgets in
    let (decided, made, done) = >>=-eq-ok (decide_entries before now entries) (settle before) h in
    let (free, whole) = settle-eq-ok before after decided done in
    let m = decide_entries-Matches before now entries decided made in
    (
      subst (λ x. All (IsCharged before x now) entries) whole
          (write_decisions-IsCharged before before now entries decided n m
            (none_rejected decided free)),
      λ key others.
          subst (λ x. fetch x key ≡ fetch before key) whole
            (fetch-write_decisions_ne key decided before
              (Matches-ne before now key entries decided m others)),
    )

abbrev Decides : Database → ℕ → Entry → Type 0
Decides database now e = (d : RateLimitDecision) × (decision_of database now e ≡ ok d)

abbrev Admits : Database → ℕ → Entry → Type 0
Admits database now e =
    (d : RateLimitDecision) × (decision_of database now e ≡ ok d) × (d.allowed ≡ true)

module _ (database : Database) (now : ℕ) where
  decide_entries_total :
      (entries : List Entry)
      → All (Decides database now) entries
      → (decided : List Decided) × (decide_entries database now entries ≡ ok decided)
  unfolding decide_entries
  decide_entries_total [] h = ([], refl)
  decide_entries_total (e ∷ entries) h =
      let (d, made) = h.0 in
      let (rest, others) = decide_entries_total entries h.1 in
      (record { entry = e; decision = d } ∷ rest, ground arith)

  decide_entries-find :
      (pre post : List Entry) (e : Entry) (d : RateLimitDecision)
      → All (Admits database now) pre
      → decision_of database now e ≡ ok d
      → d.allowed ≡ false
      → All (Decides database now) post
      → (decided : List Decided) × (decide_entries database now (pre ++ e ∷ post) ≡ ok decided)
        × (find is_rejected decided ≡ some (record { entry = e; decision = d }))
  unfolding decide_entries
  decide_entries-find [] post e d a made refused p =
      let (rest, others) = decide_entries_total post p in
      (record { entry = e; decision = d } ∷ rest, ground arith, ground arith)
  decide_entries-find (f ∷ pre) post e d a made refused p =
      let (c, here, free) = a.0 in
      let (rest, others, found) = decide_entries-find pre post e d a.1 made refused p in
      (record { entry = f; decision = c } ∷ rest, ground arith, ground arith)

  -- If a budget refuses, those before it admit and those after it are decided without an error, the
  -- transaction throws the refusal with the waiting time of that budget, and so charges none.
  pub consume_in_transaction-refuses :
      (sha256_hex : List String → String) (budgets : List Budget) (pre post : List Entry)
      (e : Entry) (d : RateLimitDecision)
      → entries_of sha256_hex budgets ≡ pre ++ e ∷ post
      → All (Admits database now) pre
      → decision_of database now e ≡ ok d
      → d.allowed ≡ false
      → All (Decides database now) post
      → consume_persistent_rate_limits_in_transaction sha256_hex database budgets now
        ≡ throw (rate_limit_exceeded d.retry_after_ms)
  unfolding consume_persistent_rate_limits_in_transaction settle
  consume_in_transaction-refuses sha256_hex budgets pre post e d split a made refused p =
      let (decided, all_made, found) = decide_entries-find pre post e d a made refused p in
      rw (split, all_made) (rw (found, settle) refl)
