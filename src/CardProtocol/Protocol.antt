-- ===== src/CardProtocol/Protocol.antt =====
-- The protocol of cardMutationProtocol.ts: counters, preconditions, and patches of a card. A number
-- that may be anything is an `Option Number`, `none` where it is no number.
use flash_card.Prelude.{
  ℕ, ◌+◌, Bool, true, false, not, ◌&&◌, ◌||◌, Option, none, some, List, [], ◌∷◌, String, Outcome,
  ok, throw, ◌>>=◌, includes, ltb, leb, ◌==◌, if◌then◌else◌,
}
use flash_card.Prelude.Text.{text_discrete}
use flash_card.Prelude.Number.{Number, nat, safe_natural?, max_safe_integer}
use flash_card.Prelude.Keyed
use flash_card.CardProtocol.Values.{Value, scalar, card_field_values_equal}

pub data CardMutationKind : Type 0 where
  create patch review delete : CardMutationKind

abbrev pub current_card_schema_version : ℕ
current_card_schema_version = 2

abbrev pub max_protocol_counter : ℕ
max_protocol_counter = max_safe_integer

abbrev pub Fields : Type 0 → Type 0
Fields V = List (String × V)

unfoldable pub mutable_card_fields : List String
mutable_card_fields =
    "word" ∷ "normalizedWord" ∷ "translation" ∷ "explanation" ∷ "explanationTranslation"
    ∷ "phonetic" ∷ "emoji" ∷ "category" ∷ "audioUrl" ∷ "imageUrl" ∷ "imageSearchQuery"
    ∷ "lastOpenedAt" ∷ "sortTouchedAt" ∷ "bookmarked" ∷ "difficulty" ∷ "customDeck"
    ∷ "nextReviewDate" ∷ "reviews" ∷ "interval" ∷ "easeFactor" ∷ "fsrs" ∷ "reviewHistory"
    ∷ "partOfSpeech" ∷ "cefrLevel" ∷ "exampleSentence" ∷ "exampleTranslation" ∷ "collocations"
    ∷ "synonyms" ∷ "antonyms" ∷ "register" ∷ "commonMistake" ∷ "correctStreak" ∷ "mnemonic"
    ∷ "wordFamily" ∷ []

pub record MutationPrecondition : Type 0 where
  pub mutation_epoch : Option Number
  pub current_library_epoch : Option Number
  pub base_revision : Option Number
  pub current_revision : Option Number
  pub tombstone_revision : Option (Option Number)
  pub operation : Option CardMutationKind

pub data Refusal : Type 0 where
  future_library_epoch stale_library_epoch revision_conflict deleted : Refusal

pub data CounterError : Type 0 where
  not_natural : (field : String) → CounterError
  beyond_maximum : (field : String) → CounterError

abbrev pub natural? : Option Number → Option ℕ
natural? none = none
natural? (some x) = safe_natural? x

unfoldable pub safe_counter : Option Number → ℕ
safe_counter value = elim (natural? value) [ none ↦ 0 | some n ↦ n ]

-- `boundedCounter`: `none` stands for undefined, which gives the fallback 0.
unfoldable pub bounded_counter : Option Number → String → Outcome CounterError ℕ
bounded_counter none field = ok 0
bounded_counter (some x) field = elim (safe_natural? x) [
  | none ↦ throw (not_natural field)
  | some n ↦ ok n
]

unfoldable pub next_counter : Option Number → String → Outcome CounterError ℕ
next_counter value field = elim (natural? value) [
  | none ↦ throw (not_natural field)
  | some n ↦ if leb max_protocol_counter n then throw (beyond_maximum field) else ok (n + 1)
]

abbrev pub is_create : Option CardMutationKind → Bool
is_create (some create) = true
is_create _ = false

-- `none` is `{ accepted: true }`.
unfoldable pub evaluate_mutation_precondition : MutationPrecondition → Option Refusal
evaluate_mutation_precondition p =
    let mutation_epoch = safe_counter p.mutation_epoch in
    let current_epoch = safe_counter p.current_library_epoch in
    let base = safe_counter p.base_revision in
    if ltb mutation_epoch current_epoch
    then some stale_library_epoch
    else if ltb current_epoch mutation_epoch
    then some future_library_epoch
    else if not (base == safe_counter p.current_revision)
    then some revision_conflict
    else elim p.tombstone_revision [
      | none ↦ none
      | some tombstone ↦
          if not (is_create p.operation) || ltb base (safe_counter tombstone)
          then some deleted
          else none
    ]

-- A card: the three fields of the protocol, and the others.
pub record CardData (V : Type 0) : Type 0 where
  pub schema_version : Option Number
  pub revision : Option Number
  pub library_epoch : Option Number
  pub fields : Fields V

module _ {V : Type 0} where
  -- A field of the mask is taken if it may be changed and the object has it.
  unfoldable pub select_field : Fields V → String → Fields V → Fields V
  select_field fields field selected =
      if includes text_discrete mutable_card_fields field
      then elim (Keyed.get text_discrete field fields) [
        | none ↦ selected
        | some v ↦ Keyed.put text_discrete field v selected
      ]
      else selected

  unfoldable pub select_fields : Fields V → List String → Fields V → Fields V
  select_fields fields [] selected = selected
  select_fields fields (field ∷ mask) selected =
      select_fields fields mask (select_field fields field selected)

  unfoldable pub select_mutable_card_patch : Fields V → List String → Fields V
  unfolding select_fields
  select_mutable_card_patch fields mask = select_fields fields mask []

  -- The loop that writes the entries of the patch.
  unfoldable pub assign : Fields V → Fields V → Fields V
  assign card [] = card
  assign card ((field, v) ∷ selected) = assign (Keyed.put text_discrete field v card) selected

  unfoldable pub apply_card_patch :
      CardData V → Fields V → List String → Outcome CounterError (CardData V)
  apply_card_patch card fields mask = do
    revision ← next_counter card.revision "revision"
    library_epoch ← bounded_counter card.library_epoch "libraryEpoch"
    ok (record {
      schema_version = some (nat current_card_schema_version);
      revision = some (nat revision);
      library_epoch = some (nat library_epoch);
      fields = assign card.fields (select_mutable_card_patch fields mask);
    })

-- `cardAlreadyHasPatch`; a field that the card does not have is undefined there.
module _ {S : Type 0} (dec : Discrete S) (undefined : S) where
  unfoldable pub has_entries : Fields (Value S) → Fields (Value S) → Bool
  has_entries card [] = true
  has_entries card ((field, v) ∷ selected) =
      elim (Keyed.get text_discrete field card) [
        | none ↦ card_field_values_equal dec (scalar undefined) v
        | some w ↦ card_field_values_equal dec w v
      ]
      && has_entries card selected

  unfoldable pub card_already_has_patch : Fields (Value S) → Fields (Value S) → List String → Bool
  unfolding has_entries
  card_already_has_patch card fields mask = has_entries card (select_mutable_card_patch fields mask)
