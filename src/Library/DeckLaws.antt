-- ===== src/Library/DeckLaws.antt =====
-- What customDecks.ts keeps of a list of deck names.
use flash_card.Prelude.{
  ◌+◌, ◌≡◌, ◌≢◌, ◌≤◌, ◌<◌, ◌↔◌, false, Option, none, some, List, [], ◌∷◌, ◌++◌, map, String, length,
  length-append, includes, includes-append, includes-add, IsUnique, IsUnique-append_one, add,
  add-IsUnique, arith,
}
use flash_card.Prelude.Text.{text_discrete}
use flash_card.Library.CustomDecks.{
  DeckTexts, created, is_reserved_custom_deck_name, normalize_custom_deck_name, add_name,
  collect_names, normalize_custom_deck_collection, plan_custom_deck_creation, max_custom_decks,
}

-- At most a hundred names, none twice and none empty.
pub record IsDeckList (decks : List String) : Type 0 where
  pub bounded : length decks ≤ max_custom_decks
  pub each_once : IsUnique text_discrete decks
  pub none_empty : includes text_discrete decks "" ≡ false

length-add : (name : String) (xs : List String) → length (add text_discrete name xs) ≤ length xs + 1
length-add name xs = ground (arith, length-append xs (name ∷ []))

add_name-IsDeckList :
    (texts : DeckTexts) (name : String) (decks : List String)
    → length decks < max_custom_decks
    → IsDeckList decks
    → IsDeckList (add_name texts name decks)
unfolding add_name
add_name-IsDeckList texts name decks room v = record {
  bounded = ground (arith, length-add name decks);
  each_once = ground (arith, v.each_once, add-IsUnique text_discrete name decks);
  none_empty = ground (arith, v.none_empty, includes-add text_discrete name "" decks);
}

append-IsDeckList :
    (decks : List String) (name : String)
    → IsDeckList decks
    → name ≢ ""
    → includes text_discrete decks name ≡ false
    → length decks < max_custom_decks
    → IsDeckList (decks ++ name ∷ [])
append-IsDeckList decks name v filled new room = record {
  bounded = omega (arith, room, length-append decks (name ∷ []));
  each_once = IsUnique-append_one text_discrete decks name v.each_once new;
  none_empty = ground (arith, v.none_empty, includes-append text_discrete decks (name ∷ []) "");
}

module _ (texts : DeckTexts) where
  collect_names-IsDeckList :
      (unique : List String) (entries : List (Option String))
      → length unique < max_custom_decks
      → IsDeckList unique
      → IsDeckList (collect_names texts unique entries)
  unfolding collect_names
  collect_names-IsDeckList unique [] room v = v
  collect_names-IsDeckList unique (entry ∷ entries) room v =
      let name = normalize_custom_deck_name texts entry in
      let next = add_name texts name unique in
      let kept = add_name-IsDeckList texts name unique room v in
      ground (arith, kept.bounded, kept, collect_names-IsDeckList next entries)

  -- Whatever is stored or received as the custom decks, what is kept of it are at most a hundred
  -- names, none of them twice and none empty.
  pub normalize_custom_deck_collection-IsDeckList :
      (value : Option (List (Option String)))
      → IsDeckList (normalize_custom_deck_collection texts value)
  unfolding normalize_custom_deck_collection
  normalize_custom_deck_collection-IsDeckList none = ground arith
  normalize_custom_deck_collection-IsDeckList (some entries) =
      collect_names-IsDeckList [] entries (ground arith) (ground arith)

  -- A plan for a new deck keeps a list of at most a hundred names, none twice and none empty, for any
  -- decks and any input; the new name stands at the end exactly if the plan is 'created', which it is
  -- exactly if the name is not empty, not reserved, not there yet and there is room for it; and
  -- otherwise the decks are the normalised ones.
  pub plan_custom_deck_creation-IsDeckList :
      (decks : List String) (input : String)
      → let plan = plan_custom_deck_creation texts decks input in
        let old = normalize_custom_deck_collection texts (some (map some decks)) in
        IsDeckList plan.decks
        × ((plan.status ≡ created) ↔ (
            (plan.name ≢ "")
            × (is_reserved_custom_deck_name texts (some plan.name) ≡ false)
            × (includes text_discrete old plan.name ≡ false)
            × (length old < max_custom_decks)))
        × (plan.status ≡ created → plan.decks ≡ old ++ plan.name ∷ [])
        × (plan.status ≢ created → plan.decks ≡ old)
  unfolding plan_custom_deck_creation
  plan_custom_deck_creation-IsDeckList decks input =
      let old = normalize_custom_deck_collection texts (some (map some decks)) in
      let v = normalize_custom_deck_collection-IsDeckList (some (map some decks)) in
      let name = normalize_custom_deck_name texts (some input) in
      ground (arith, v, append-IsDeckList old name v)
