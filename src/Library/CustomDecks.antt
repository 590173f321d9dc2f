-- ===== src/Library/CustomDecks.antt =====
-- src/features/library/customDecks.ts: the names of custom decks. A value of unknown kind is `none`
-- where it is not a text.
use flash_card.Prelude.{
  ℕ, Bool, false, Option, none, some, List, [], ◌∷◌, ◌++◌, map, String, length, same, includes, add,
  leb, ◌==◌, if◌then◌else◌,
}
use flash_card.Prelude.Text.{text_discrete}

-- The text functions of the platform: `replace(/\u001f/g, ' ')`, `trim`, `slice(0, 128)`,
-- `normalize('NFKC')` and `toLowerCase`.
pub record DeckTexts : Type 0 where
  pub without_separators : String → String
  pub trim : String → String
  pub slice_128 : String → String
  pub normalize_nfkc : String → String
  pub lower : String → String

abbrev pub max_custom_decks : ℕ
max_custom_decks = 100

abbrev pub reserved_custom_deck_names : List String
reserved_custom_deck_names = "All" ∷ "Unassigned" ∷ []

pub data CreationStatus : Type 0 where
  created empty duplicate limit reserved : CreationStatus

pub record CustomDeckCreationPlan : Type 0 where
  pub status : CreationStatus
  pub name : String
  pub decks : List String

module _ (texts : DeckTexts) where
  open texts use {without_separators, trim, slice_128, normalize_nfkc, lower}

  unfoldable pub is_reserved_custom_deck_name : Option String → Bool
  is_reserved_custom_deck_name none = false
  is_reserved_custom_deck_name (some value) =
      includes text_discrete (map lower reserved_custom_deck_names)
        (lower (trim (normalize_nfkc value)))

  unfoldable pub normalize_custom_deck_name : Option String → String
  normalize_custom_deck_name none = ""
  normalize_custom_deck_name (some value) = slice_128 (trim (without_separators value))

  unfoldable pub normalize_assigned_deck_name : Option String → Option String
  unfolding normalize_custom_deck_name
  normalize_assigned_deck_name none = none
  normalize_assigned_deck_name (some value) =
      let name = normalize_custom_deck_name (some value) in
      if same text_discrete name "" then none else some name

  -- `if (name) unique.add(name)`
  unfoldable pub add_name : String → List String → List String
  add_name name unique =
      if same text_discrete name "" then unique else add text_discrete name unique

  -- The loop of `normalizeCustomDeckCollection`.
  unfoldable pub collect_names : List String → List (Option String) → List String
  collect_names unique [] = unique
  collect_names unique (entry ∷ entries) =
      let next = add_name (normalize_custom_deck_name entry) unique in
      let rest = collect_names next entries in
      if length next == max_custom_decks then next else rest

  -- `none` is a value that is not an array.
  unfoldable pub normalize_custom_deck_collection : Option (List (Option String)) → List String
  normalize_custom_deck_collection none = []
  normalize_custom_deck_collection (some entries) = collect_names [] entries

  unfoldable pub plan_custom_deck_creation : List String → String → CustomDeckCreationPlan
  plan_custom_deck_creation decks input =
      let normalized = normalize_custom_deck_collection (some (map some decks)) in
      let name = normalize_custom_deck_name (some input) in
      if same text_discrete name ""
      then record { status = empty; name = name; decks = normalized }
      else if is_reserved_custom_deck_name (some name)
      then record { status = reserved; name = name; decks = normalized }
      else if includes text_discrete normalized name
      then record { status = duplicate; name = name; decks = normalized }
      else if leb max_custom_decks (length normalized)
      then record { status = limit; name = name; decks = normalized }
      else record { status = created; name = name; decks = normalized ++ name ∷ [] }
