-- ===== src/DeviceSync/Masks.antt =====
-- The field masks of patches of src/lib/deviceSync.ts, and the mask of two patches folded into one.
use flash_card.Prelude.{
  ◌≡◌, ◌⊎◌, refl, Bool, true, false, ◌&&◌, ◌||◌, none, some, List, [], ◌∷◌, ◌++◌, String, keep,
  includes, includes-append, includes-add, add, add_all, is_some, if◌then◌else◌, arith,
  Option-cases, inl, inr,
}
use flash_card.Prelude.Text.{text_discrete}
use flash_card.Prelude.Keyed
use flash_card.CardProtocol.Protocol.{Fields}
use flash_card.CardProtocol.Patching.{field, may_change, field-selected}
use flash_card.DeviceSync.Operations.{
  patches, DevicePendingOperation, keys, operation_field_mask, spread, mask_of, merged_mask,
  fold_patches, is_review,
}
use flash_card.DeviceSync.Meaning.{State, stamp, written, act, get-spread, Covers}

includes-add_all :
    (seen xs : List String) (a : String)
    → includes text_discrete (add_all text_discrete seen xs) a
      ≡ (includes text_discrete seen a || includes text_discrete xs a)
includes-add_all seen [] a = ground arith
includes-add_all seen (x ∷ xs) a =
    ground
      (arith, includes-add_all (add text_discrete x seen) xs a, includes-add text_discrete x a seen)

includes-keep :
    (p : String → Bool) (xs : List String) (a : String)
    → includes text_discrete (keep p xs) a ≡ (p a && includes text_discrete xs a)
includes-keep p [] a = ground arith
includes-keep p (x ∷ xs) a = ground (arith, includes-keep p xs a)

module _ {V : Type 0} where
  includes-keys :
      (fields : Fields V) (k : String)
      → includes text_discrete (keys fields) k ≡ is_some (field k fields)
  unfolding Keyed.get
  includes-keys [] k = refl
  includes-keys ((j, v) ∷ fields) k = ground (arith, includes-keys fields k)

  includes-operation_field_mask :
      (fields : Fields V) (k : String)
      → includes text_discrete (operation_field_mask fields) k
        ≡ (may_change k && is_some (field k fields))
  unfolding operation_field_mask
  includes-operation_field_mask fields k =
      ground (arith, includes-keep may_change (keys fields) k, includes-keys fields k)

  -- A patch is covered by no mask of its own, and by the mask that `queueDevicePatches` gives it.
  pub own_mask-Covers :
      (op : DevicePendingOperation V) (card_id : String) (fields : Fields V)
      → Keyed.IsDistinct text_discrete fields
      → (op.field_mask ≡ none) ⊎ (op.field_mask ≡ some (operation_field_mask fields))
      → Covers op (patches card_id fields)
  unfolding mask_of
  own_mask-Covers op card_id fields d (inl h) =
      (d, λ k m out. ground (arith, includes-operation_field_mask fields k))
  own_mask-Covers op card_id fields d (inr h) =
      (d, λ k m out. ground (arith, includes-operation_field_mask fields k))

  -- A covered patch writes every field that it has and that may be changed.
  field-written :
      (op : DevicePendingOperation V) (card_id k : String) (fields : Fields V)
      → Covers op (patches card_id fields)
      → field k (written op fields) ≡ (if may_change k then field k fields else none)
  field-written op card_id k fields c =
      ground (arith, field-selected fields (mask_of op fields) k, c.1 k)

  -- The mask of the folded patch has the fields of both masks.
  includes-mask_of-fold_patches :
      (existing op : DevicePendingOperation V) (card_id k : String) (fields more : Fields V)
      → Keyed.IsDistinct text_discrete more
      → may_change k ≡ true
      → includes text_discrete
          (mask_of (fold_patches existing fields op card_id more) (spread fields more))
          k
        ≡ (includes text_discrete (mask_of existing fields) k
            || includes text_discrete (mask_of op more) k)
  unfolding fold_patches merged_mask mask_of
  includes-mask_of-fold_patches existing op card_id k fields more d m =
      elim (Option-cases existing.field_mask) [
        | inr (mask, e) ↦ ground (
          arith,
          includes-add_all [] (mask ++ mask_of op more) k,
          includes-append text_discrete mask (mask_of op more) k,
        )
        | inl e ↦ elim (Option-cases op.field_mask) [
          | inr (mask, f) ↦ ground (
            arith,
            includes-add_all [] (operation_field_mask fields ++ mask) k,
            includes-append text_discrete (operation_field_mask fields) mask k,
          )
          | inl f ↦ ground (
            arith,
            includes-operation_field_mask fields k,
            includes-operation_field_mask more k,
            includes-operation_field_mask (spread fields more) k,
            get-spread fields more k d,
          )
        ]
      ]

  spread-IsDistinct :
      (first second : Fields V)
      → Keyed.IsDistinct text_discrete first
      → Keyed.IsDistinct text_discrete (spread first second)
  unfolding spread
  spread-IsDistinct first [] d = d
  spread-IsDistinct first ((j, v) ∷ second) d =
      spread-IsDistinct (Keyed.put text_discrete j v first) second
        (Keyed.put-IsDistinct text_discrete j v first d)

  pub fold_patches-Covers :
      (existing op : DevicePendingOperation V) (i j : String) (fields more : Fields V)
      → Covers existing (patches i fields)
      → Covers op (patches j more)
      → Covers (fold_patches existing fields op j more) (patches j (spread fields more))
  fold_patches-Covers existing op i j fields more c e = (
    spread-IsDistinct fields more c.0,
    λ k m h. ground (
      arith,
      includes-mask_of-fold_patches existing op j k fields more e.0 m,
      get-spread fields more k e.0,
      c.1 k,
      e.1 k,
    ),
  )

  operation-fold_patches :
      (existing op : DevicePendingOperation V) (j : String) (fields more : Fields V)
      → let fold = fold_patches existing fields op j more in
        (fold.operation ≡ op.operation) × (stamp fold ≡ stamp op)
  unfolding fold_patches
  operation-fold_patches existing op j fields more = (refl, refl)

  -- The folded patch does what the two patches do, of which neither is a review.
  pub act-fold_patches :
      (k : String) (existing op : DevicePendingOperation V) (i j : String) (fields more : Fields V)
      (state : State V)
      → Covers existing (patches i fields)
      → Covers op (patches j more)
      → is_review existing.operation ≡ false
      → is_review op.operation ≡ false
      → act k (fold_patches existing fields op j more) (patches j (spread fields more)) state
        ≡ act k op (patches j more) (act k existing (patches i fields) state)
  act-fold_patches k existing op i j fields more none c e a b = refl
  act-fold_patches k existing op i j fields more (some (value, reviews, last)) c e a b =
      let fold = fold_patches existing fields op j more in
      ground (
        arith,
        field-written existing i k fields c,
        field-written op j k more e,
        field-written fold j k (spread fields more)
            (fold_patches-Covers existing op i j fields more c e),
        get-spread fields more k e.0,
        operation-fold_patches existing op j fields more,
      )
