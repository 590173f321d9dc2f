-- ===== src/CardProtocol/Patching.antt =====
-- The fields and counters that `applyCardPatch` of cardMutationProtocol.ts writes.
use flash_card.Prelude.{
  ℕ, ◌+◌, ◌≤◌, ◌≡◌, refl, Bool, ◌&&◌, Option, none, some, List, [], ◌∷◌, String, ok, >>=-eq-ok,
  includes, arith, if◌then◌else◌, Option-cases, inl, inr,
}
use flash_card.Prelude.Text.{text_discrete}
use flash_card.Prelude.Number.{Number, nat, safe_natural?, max_safe_integer}
use flash_card.Prelude.Keyed
use flash_card.Prelude.Keyed.{IsDistinct}
use flash_card.CardProtocol.Protocol.{
  Fields, mutable_card_fields, current_card_schema_version, CardData, safe_counter, natural?,
  bounded_counter, next_counter, select_field, select_fields, select_mutable_card_patch, assign,
  apply_card_patch,
}

abbrev pub may_change : String → Bool
may_change k = includes text_discrete mutable_card_fields k

next_counter-ok :
    (value : Option Number) (name : String) (n : ℕ)
    → next_counter value name ≡ ok n
    → (n ≡ safe_counter value + 1) × (n ≤ max_safe_integer)
unfolding next_counter safe_counter
next_counter-ok value name n h = elim (Option-cases (natural? value)) [
  | inl bad ↦ absurd (ground arith)
  | inr (m, good) ↦ (ground arith, ground arith)
]

bounded_counter-ok :
    (value : Option Number) (name : String) (n : ℕ)
    → bounded_counter value name ≡ ok n
    → n ≡ safe_counter value
unfolding bounded_counter safe_counter
bounded_counter-ok none name n h = ground arith
bounded_counter-ok (some x) name n h = elim (Option-cases (safe_natural? x)) [
  | inl bad ↦ absurd (ground arith)
  | inr (m, good) ↦ ground arith
]

module _ {V : Type 0} where
  abbrev pub field : String → Fields V → Option V
  field k fields = Keyed.get text_discrete k fields

  abbrev pub or_else : Option V → Option V → Option V
  or_else (some v) w = some v
  or_else none w = w

  field-select_fields :
      (fields : Fields V) (mask : List String) (selected : Fields V) (k : String)
      → field k (select_fields fields mask selected) ≡ (
          if may_change k && includes text_discrete mask k
          then or_else (field k fields) (field k selected)
          else field k selected)
  unfolding select_fields select_field
  field-select_fields fields [] selected k = ground arith
  field-select_fields fields (f ∷ mask) selected k = elim (Option-cases (field f fields)) [
    | inl absent ↦
        ground (arith, field-select_fields fields mask (select_field fields f selected) k)
    | inr (v, there) ↦ ground (
      arith,
      field-select_fields fields mask (select_field fields f selected) k,
      Keyed.get-put text_discrete f k v selected,
    )
  ]

  select_field-IsDistinct :
      (fields : Fields V) (f : String) (selected : Fields V)
      → IsDistinct text_discrete selected
      → IsDistinct text_discrete (select_field fields f selected)
  unfolding select_field
  select_field-IsDistinct fields f selected d = elim (Option-cases (field f fields)) [
    | inl absent ↦ ground arith
    | inr (v, there) ↦ ground (arith, Keyed.put-IsDistinct text_discrete f v selected d)
  ]

  select_fields-IsDistinct :
      (fields : Fields V) (mask : List String) (selected : Fields V)
      → IsDistinct text_discrete selected
      → IsDistinct text_discrete (select_fields fields mask selected)
  unfolding select_fields
  select_fields-IsDistinct fields [] selected d = d
  select_fields-IsDistinct fields (f ∷ mask) selected d =
      select_fields-IsDistinct fields mask (select_field fields f selected)
        (select_field-IsDistinct fields f selected d)

  pub field-assign :
      (card selected : Fields V) (k : String)
      → IsDistinct text_discrete selected
      → field k (assign card selected) ≡ or_else (field k selected) (field k card)
  unfolding assign Keyed.get
  field-assign card [] k d = refl
  field-assign card ((j, v) ∷ selected) k d = ground (
    arith,
    field-assign (Keyed.put text_discrete j v card) selected k d.1,
    Keyed.get-put text_discrete j k v card,
  )

  pub selected-IsDistinct :
      (fields : Fields V) (mask : List String)
      → IsDistinct text_discrete (select_mutable_card_patch fields mask)
  unfolding select_mutable_card_patch
  selected-IsDistinct fields mask = select_fields-IsDistinct fields mask [] tt

  pub field-selected :
      (fields : Fields V) (mask : List String) (k : String)
      → field k (select_mutable_card_patch fields mask)
        ≡ (if may_change k && includes text_discrete mask k then field k fields else none)
  unfolding select_mutable_card_patch Keyed.get
  field-selected fields mask k = ground (arith, field-select_fields fields mask [] k)

  pub apply_card_patch-ok :
      (card next : CardData V) (fields : Fields V) (mask : List String)
      → apply_card_patch card fields mask ≡ ok next
      → (next.revision ≡ some (nat (safe_counter card.revision + 1)))
        × (safe_counter card.revision + 1 ≤ max_safe_integer)
        × (next.library_epoch ≡ some (nat (safe_counter card.library_epoch)))
        × (next.schema_version ≡ some (nat current_card_schema_version))
        × (next.fields ≡ assign card.fields (select_mutable_card_patch fields mask))
  unfolding apply_card_patch
  apply_card_patch-ok card next fields mask h =
      let (revision, advanced, more) = >>=-eq-ok (next_counter card.revision "revision") _ h in
      let (epoch, kept, whole) =
        >>=-eq-ok (bounded_counter card.library_epoch "libraryEpoch") _ more in
      let (plus, safe) = next_counter-ok card.revision "revision" revision advanced in
      let held = bounded_counter-ok card.library_epoch "libraryEpoch" epoch kept in
      (ground arith, ground arith, ground arith, ground arith, ground arith)
