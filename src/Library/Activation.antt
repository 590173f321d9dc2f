-- ===== src/Library/Activation.antt =====
-- `activate` of ownerLibrarySessionController.ts, up to its subscription of the deck profile and from
-- there on, and the callbacks of an activation.
use flash_card.Prelude.{
  ℕ, Bool, true, false, not, ◌&&◌, ◌||◌, Option, none, some, List, [], ◌∷◌, ◌++◌, String, map, same,
  take, if◌then◌else◌,
}
use flash_card.Prelude.Text.{text_discrete}
use flash_card.Prelude.Number.{Number}
use flash_card.Library.CustomDecks.{DeckTexts, normalize_custom_deck_collection}
use flash_card.Library.State.{
  SignedInCardSessionPlan, plan_cards_for_signed_in_session, LibraryStatus, adopting, ready,
  LibrarySnapshot, CacheWrite, write_cards, write_decks, discard_cards, discard_decks, Adopted,
  OwnerLibrary, positive_or_zero, stop,
}

-- What the cache holds, as its reads give it.
pub record CachedLibrary (Card : Type 0) : Type 0 where
  pub cards_owner : Option String
  pub cards : List Card
  pub decks_owner : Option String
  pub decks : List String

-- What the callbacks of an activation have captured.
pub record Activation (Card : Type 0) : Type 0 where
  pub owner_id : String
  pub generation : ℕ
  pub visible_cards : List Card
  pub decks_to_migrate : List String
  pub cloud_total : ℕ

-- `getLegacyMigrationProgress`
pub record LegacyProgress : Type 0 where
  pub scanned : Number
  pub complete : Bool

-- The calls of the adapter that an activation makes.
pub data Command (Card : Type 0) : Type 0 where
  queue_card_migration : (owner_id : String) → List Card → (epoch : ℕ) → Command Card
  seed_deck_profile : (owner_id : String) → List String → Command Card

abbrev pub is_empty : {A : Type 0} → List A → Bool
is_empty [] = true
is_empty (x ∷ xs) = false

module _ {Card : Type 0} where
  -- `cardsClaimedByAnotherOwner`
  unfoldable pub is_claimed : Option String → Option (Adopted Card) → String → Bool
  is_claimed (some cards_owner) pending owner_id = false
  is_claimed none none owner_id = false
  is_claimed none (some pending) owner_id = not (same text_discrete pending.owner_id owner_id)

  unfoldable pub card_plan :
      Option (Adopted Card) → CachedLibrary Card → String → SignedInCardSessionPlan Card
  unfolding is_claimed
  card_plan pending cached owner_id =
      if is_claimed cached.cards_owner pending owner_id
      then record { visible_cards = []; cards_to_migrate = []; discard_local_cache = false }
      else plan_cards_for_signed_in_session cached.cards cached.cards_owner owner_id

  -- The writes of an activation, of which those behind one that throws are left out.
  unfoldable pub adoption_writes :
      Bool
      → SignedInCardSessionPlan Card
      → SignedInCardSessionPlan String
      → String
      → List (CacheWrite Card)
  adoption_writes claimed cards decks owner_id =
      (if cards.discard_local_cache then discard_cards ∷ [] else [])
      ++ ((if not claimed && is_empty cards.cards_to_migrate
            then write_cards owner_id cards.visible_cards ∷ []
            else [])
          ++ ((if decks.discard_local_cache then discard_decks ∷ [] else [])
              ++ write_decks owner_id decks.visible_cards ∷ []))

  unfoldable pub next_adopted :
      Option (Adopted Card) → SignedInCardSessionPlan Card → String → Option (Adopted Card)
  next_adopted pending plan owner_id =
      if is_empty plan.cards_to_migrate
      then pending
      else some (record { owner_id = owner_id; cards = plan.cards_to_migrate })

  unfoldable pub adopted_snapshot :
      LibraryStatus
      → SignedInCardSessionPlan Card
      → SignedInCardSessionPlan String
      → String
      → LibrarySnapshot Card
  adopted_snapshot status cards decks owner_id = record {
    owner_id = some owner_id;
    cards = cards.visible_cards;
    decks = decks.visible_cards;
    legacy_pending = 0;
    legacy_issue = none;
    is_migrating_legacy = false;
    status = status;
    error_message = none;
  }

module _ (deck_texts : DeckTexts) (available : Bool) {Card : Type 0} where
  -- `activate` for an owner, up to the subscription; `none` where it has returned before it. `made`
  -- is how many writes of the cache are made before one throws.
  unfoldable pub adopt :
      OwnerLibrary Card
      → (owner_id : String) → (cloud_total : Number) → CachedLibrary Card
      → (made : ℕ) → OwnerLibrary Card × Option (Activation Card)
  adopt before owner_id cloud_total cached made =
      let s = stop before in
      let total = positive_or_zero cloud_total in
      let claimed = is_claimed cached.cards_owner s.pending_adopted owner_id in
      let cards = card_plan s.pending_adopted cached owner_id in
      let normalized = normalize_custom_deck_collection deck_texts (some (map some cached.decks)) in
      let decks = plan_cards_for_signed_in_session normalized cached.decks_owner owner_id in
      let status = if available then adopting else ready in
      (
        record s {
          current_cloud_total = total;
          writes = s.writes ++ take made (adoption_writes claimed cards decks owner_id);
          snapshot = adopted_snapshot status cards decks owner_id;
          pending_adopted = next_adopted s.pending_adopted cards owner_id;
          deck_seed_requested = false;
        },
        if available
            then some (record {
              owner_id = owner_id;
              generation = s.generation;
              visible_cards = cards.visible_cards;
              decks_to_migrate = decks.cards_to_migrate;
              cloud_total = total;
            })
            else none,
      )

  -- `activate` up to the subscription. An owner of an empty name is none.
  unfoldable pub activate :
      OwnerLibrary Card
      → (owner_id : Option String) → (cloud_total : Number) → CachedLibrary Card
      → (made : ℕ) → OwnerLibrary Card × Option (Activation Card)
  activate before none cloud_total cached made = (stop before, none)
  activate before (some owner_id) cloud_total cached made =
      if same text_discrete owner_id ""
      then (stop before, none)
      else adopt before owner_id cloud_total cached made

module _ {Card : Type 0} where
  -- `seedDecks`
  unfoldable pub seed_decks :
      OwnerLibrary Card → String → List String → OwnerLibrary Card × List (Command Card)
  seed_decks s owner_id decks =
      if s.deck_seed_requested || is_empty decks
      then (s, [])
      else (record s { deck_seed_requested = true }, seed_deck_profile owner_id decks ∷ [])

  -- `adoptedCards`, and the call that queues them.
  unfoldable pub queue_adopted :
      Option (Adopted Card) → String → (library_epoch : Option ℕ) → List (Command Card)
  queue_adopted (some pending) owner_id (some epoch) =
      if same text_discrete pending.owner_id owner_id && not (is_empty pending.cards)
      then queue_card_migration owner_id pending.cards epoch ∷ []
      else []
  queue_adopted _ owner_id _ = []

  -- `activate` behind the subscription.
  unfoldable pub start_migrations :
      OwnerLibrary Card
      → Activation Card
      → (library_epoch : Option ℕ) → OwnerLibrary Card × List (Command Card)
  start_migrations s a library_epoch =
      let subscribed = record s { subscribed = true } in
      let seeded = seed_decks subscribed a.owner_id a.decks_to_migrate in
      (seeded.0, queue_adopted s.pending_adopted a.owner_id library_epoch ++ seeded.1)
