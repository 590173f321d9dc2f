-- ===== src/RateLimit/AiBudgets.antt =====
-- functions/src/aiRequestBudget.ts: the budgets of the vocabulary actions.
use flash_card.Prelude.{
  ℕ, ◌≡◌, ◌↔◌, refl, ap, ◌∙◌, sym, Bool, true, Option, none, some, List, [], ◌∷◌, map, String,
  includes, same, if◌then◌else◌, arith,
}
use flash_card.Prelude.Text.{text_discrete}
use flash_card.Prelude.Number.{nat, safe_positive?}

pub data VocabularyAiAction : Type 0 where
  word story translate tutor mnemonic extract dialogue conversation : VocabularyAiAction

pub record VocabularyAiBudget : Type 0 where
  pub scope : String
  pub maximum : ℕ
  pub message : String

-- `VOCABULARY_AI_BUDGETS`, by its action
unfoldable pub get_vocabulary_ai_budget : VocabularyAiAction → VocabularyAiBudget
get_vocabulary_ai_budget word = record {
  scope = "ai-card";
  maximum = 120;
  message = "Card generation limit reached. Try again later.";
}
get_vocabulary_ai_budget story = record {
  scope = "ai-story";
  maximum = 30;
  message = "Story generation limit reached. Try again later.";
}
get_vocabulary_ai_budget translate = record {
  scope = "ai-translate";
  maximum = 120;
  message = "Translation limit reached. Try again later.";
}
get_vocabulary_ai_budget tutor = record {
  scope = "ai-tutor";
  maximum = 60;
  message = "Tutor request limit reached. Try again later.";
}
get_vocabulary_ai_budget mnemonic = record {
  scope = "ai-mnemonic";
  maximum = 60;
  message = "Mnemonic request limit reached. Try again later.";
}
get_vocabulary_ai_budget extract = record {
  scope = "ai-extract";
  maximum = 30;
  message = "Vocabulary extraction limit reached. Try again later.";
}
get_vocabulary_ai_budget dialogue = record {
  scope = "ai-dialogue";
  maximum = 30;
  message = "Dialogue generation limit reached. Try again later.";
}
get_vocabulary_ai_budget conversation = record {
  scope = "ai-conversation";
  maximum = 24;
  message = "Conversation limit reached. Try again later.";
}

abbrev actions : List VocabularyAiAction
actions = word ∷ story ∷ translate ∷ tutor ∷ mnemonic ∷ extract ∷ dialogue ∷ conversation ∷ []

abbrev pub scope_of : VocabularyAiAction → String
scope_of action = (get_vocabulary_ai_budget action).scope

-- `VOCABULARY_AI_SCOPES`
abbrev vocabulary_ai_scopes : List String
vocabulary_ai_scopes = map scope_of actions

unfoldable pub is_vocabulary_ai_rate_limit_scope : String → Bool
is_vocabulary_ai_rate_limit_scope scope = includes text_discrete vocabulary_ai_scopes scope

-- The first action in a list whose scope is the given one.
action_of : String → List VocabularyAiAction → Option VocabularyAiAction
action_of scope [] = none
action_of scope (a ∷ rest) =
    let later = action_of scope rest in
    if same text_discrete (scope_of a) scope then some a else later

action_of-scope_of :
    (action : VocabularyAiAction) → action_of (scope_of action) actions ≡ some action
unfolding action_of get_vocabulary_ai_budget text_discrete
action_of-scope_of word = refl
action_of-scope_of story = refl
action_of-scope_of translate = refl
action_of-scope_of tutor = refl
action_of-scope_of mnemonic = refl
action_of-scope_of extract = refl
action_of-scope_of dialogue = refl
action_of-scope_of conversation = refl

scoped :
    (scope : String) (l : List VocabularyAiAction)
    → includes text_discrete (map scope_of l) scope ≡ true
    → (action : VocabularyAiAction) × (scope_of action ≡ scope)
scoped scope [] h = absurd (ground arith)
scoped scope (a ∷ l) h = elim (text_discrete (scope_of a) scope) [
  | yes e ↦ (a, e)
  | no n ↦ scoped scope l (ground arith)
]

scope_of-known :
    (action : VocabularyAiAction) → is_vocabulary_ai_rate_limit_scope (scope_of action) ≡ true
unfolding is_vocabulary_ai_rate_limit_scope get_vocabulary_ai_budget text_discrete
scope_of-known word = refl
scope_of-known story = refl
scope_of-known translate = refl
scope_of-known tutor = refl
scope_of-known mnemonic = refl
scope_of-known extract = refl
scope_of-known dialogue = refl
scope_of-known conversation = refl

positive :
    (action : VocabularyAiAction)
    → safe_positive? (nat (get_vocabulary_ai_budget action).maximum)
      ≡ some (get_vocabulary_ai_budget action).maximum
unfolding get_vocabulary_ai_budget
positive word = refl
positive story = refl
positive translate = refl
positive tutor = refl
positive mnemonic = refl
positive extract = refl
positive dialogue = refl
positive conversation = refl

-- A text is a scope of the vocabulary actions exactly if it is that of some action; two actions
-- never share a scope, so none uses up the budget of another; and every maximum is one that the
-- rate limiter takes.
pub vocabulary_ai_budgets_apart :
    (scope : String) (a b : VocabularyAiAction)
    → ((is_vocabulary_ai_rate_limit_scope scope ≡ true)
        ↔ ((action : VocabularyAiAction) × ((get_vocabulary_ai_budget action).scope ≡ scope)))
      × ((get_vocabulary_ai_budget a).scope ≡ (get_vocabulary_ai_budget b).scope → a ≡ b)
      × (safe_positive? (nat (get_vocabulary_ai_budget a).maximum)
          ≡ some (get_vocabulary_ai_budget a).maximum)
unfolding is_vocabulary_ai_rate_limit_scope
vocabulary_ai_budgets_apart scope a b = (
  (
    λ h. scoped scope actions h,
    λ (action, e). ap is_vocabulary_ai_rate_limit_scope (sym e) ∙ scope_of-known action,
  ),
  λ e.
      let one : some a ≡ some b =
        sym (action_of-scope_of a) ∙ ap (λ s. action_of s actions) e ∙ action_of-scope_of b in
      ground arith,
  positive a,
)
