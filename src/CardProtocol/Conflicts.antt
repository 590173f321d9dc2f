-- ===== src/CardProtocol/Conflicts.antt =====
-- Preconditions of cardMutationProtocol.ts against patches, and patches that are tried again.
use flash_card.Prelude.{
  ℕ, ◌+◌, ◌≤◌, ◌≡◌, ◌↔◌, refl, ap, ◌∙◌, true, Option, none, some, List, [], ◌∷◌, String, ok, All,
  arith, Option-cases, inl, inr, sym,
}
use flash_card.Prelude.Text.{text_discrete}
use flash_card.Prelude.Number.{Number, nat, max_safe_integer}
use flash_card.Prelude.Keyed
use flash_card.Prelude.Keyed.{IsDistinct}
use flash_card.CardProtocol.Values.{Value, card_field_values_equal_self}
use flash_card.CardProtocol.Protocol.{
  Fields, CardData, MutationPrecondition, create, revision_conflict, safe_counter,
  evaluate_mutation_precondition, select_mutable_card_patch, assign, apply_card_patch, has_entries,
  card_already_has_patch,
}
use flash_card.CardProtocol.Patching.{field, field-assign, selected-IsDistinct, apply_card_patch-ok}

-- A mutation is accepted exactly if its epoch is the library's, its base is the current revision,
-- and, where the card was deleted, it creates the card anew from no earlier than the deletion. A
-- counter that is missing or is not a safe natural number counts as 0 in each of these comparisons.
pub evaluate_mutation_precondition-accepts_iff :
    (p : MutationPrecondition)
    → (evaluate_mutation_precondition p ≡ none) ↔ (
        (safe_counter p.mutation_epoch ≡ safe_counter p.current_library_epoch)
        × (safe_counter p.base_revision ≡ safe_counter p.current_revision)
        × ((deletion : Option Number)
            → p.tombstone_revision ≡ some deletion
            → (p.operation ≡ some create) × (safe_counter deletion ≤ safe_counter p.base_revision)))
unfolding evaluate_mutation_precondition
evaluate_mutation_precondition-accepts_iff p = elim (Option-cases p.tombstone_revision) [
  | inl alive ↦
      (λ h. (ground arith, ground arith, λ deletion e. absurd (ground arith)), λ h. ground arith)
  | inr (t, dead) ↦ (
    λ h. (ground arith, ground arith, λ deletion e. (ground arith, ground arith)),
    λ (a, b, c). let (d, e) = c t dead in ground arith,
  )
]

safe_counter-nat : (n : ℕ) → n ≤ max_safe_integer → safe_counter (some (nat n)) ≡ n
unfolding safe_counter
safe_counter-nat n h = ground arith

-- No update is lost: once a patch of a card is applied, every other mutation in the same epoch that
-- was made against the revision before it is refused as a conflict.
pub apply_card_patch-conflicts :
    {V : Type 0} (card next : CardData V) (fields : Fields V) (mask : List String)
    (p : MutationPrecondition)
    → apply_card_patch card fields mask ≡ ok next
    → safe_counter p.mutation_epoch ≡ safe_counter p.current_library_epoch
    → p.base_revision ≡ card.revision
    → p.current_revision ≡ next.revision
    → evaluate_mutation_precondition p ≡ some revision_conflict
unfolding evaluate_mutation_precondition
apply_card_patch-conflicts card next fields mask p h epoch base current =
    let (advanced, bounded, epochs, schema, fields_of) =
      apply_card_patch-ok card next fields mask h in
    let later : safe_counter p.current_revision ≡ safe_counter p.base_revision + 1 =
      ap safe_counter (current ∙ advanced)
      ∙ safe_counter-nat (safe_counter card.revision + 1) bounded
      ∙ ap (λ r. safe_counter r + 1) (sym base) in
    ground (arith, later)

module _ {S : Type 0} (dec : Discrete S) (undefined : S) where
  abbrev Holds : Fields (Value S) → Fields (Value S) → Type 0
  Holds whole = All (λ (e : String × Value S). field e.0 whole ≡ some e.1)

  lift-Holds :
      (j : String) (v : Value S) (whole entries : Fields (Value S))
      → field j whole ≡ none
      → Holds whole entries
      → Holds ((j, v) ∷ whole) entries
  unfolding Keyed.get
  lift-Holds j v whole [] n h = tt
  lift-Holds j v whole ((i, w) ∷ entries) n h = (ground arith, lift-Holds j v whole entries n h.1)

  own-Holds : (fields : Fields (Value S)) → IsDistinct text_discrete fields → Holds fields fields
  unfolding Keyed.get
  own-Holds [] d = tt
  own-Holds ((j, v) ∷ fields) d =
      (ground arith, lift-Holds j v fields fields d.0 (own-Holds fields d.1))

  has_entries-assign :
      (card selected entries : Fields (Value S))
      → IsDistinct text_discrete selected
      → Holds selected entries
      → has_entries dec undefined (assign card selected) entries ≡ true
  unfolding has_entries
  has_entries-assign card selected [] d h = refl
  has_entries-assign card selected ((j, v) ∷ entries) d h = ground (
    arith,
    field-assign card selected j d,
    card_field_values_equal_self dec v,
    has_entries-assign card selected entries d h.1,
  )

  -- A retry is recognised: once a patch is applied, the card already has it, whatever its fields
  -- and its mask are.
  pub card_already_has_patch-apply_card_patch :
      (card next : CardData (Value S)) (fields : Fields (Value S)) (mask : List String)
      → apply_card_patch card fields mask ≡ ok next
      → card_already_has_patch dec undefined next.fields fields mask ≡ true
  unfolding card_already_has_patch
  card_already_has_patch-apply_card_patch card next fields mask h =
      let (advanced, bounded, epoch, schema, whole) = apply_card_patch-ok card next fields mask h in
      let selected = select_mutable_card_patch fields mask in
      let d = selected-IsDistinct fields mask in
      ap (λ x. has_entries dec undefined x selected) whole
      ∙ has_entries-assign card.fields selected selected d (own-Holds selected d)
