-- ===== src/DeviceSync/Meaning.antt =====
-- What pending operations do to a card: the meaning against which the compaction is proved. It is
-- given for one field of the card: no card, or the value that stands in the field, if any, with the
-- reviews that the card has received since it was created and the metadata of the operation that
-- reached it last. A patch writes its fields that its mask
-- names and that may be changed, as `applyCardPatch` does, and a review is received as it is.
use flash_card.Prelude.{
  ℕ, ◌≡◌, refl, ap, ◌∙◌, true, false, Option, none, some, List, [], ◌∷◌, ◌++◌, String, includes,
  if◌then◌else◌, arith,
}
use flash_card.Prelude.Text.{text_discrete}
use flash_card.Prelude.Keyed
use flash_card.CardProtocol.Protocol.{Fields, select_mutable_card_patch}
use flash_card.CardProtocol.Patching.{field, or_else, may_change}
use flash_card.DeviceSync.Operations.{
  Body, upserts, patches, deletes, DevicePendingOperation, spread, last?, drop_last, is_review,
  mask_of,
}

-- The metadata of an operation: its identifier, base revision, library epoch and time.
abbrev pub Stamp : Type 0
Stamp = Option String × Option ℕ × Option ℕ × ℕ

-- No card, or the value under the field, the reviews received and the stamp of the last operation.
abbrev pub State : Type 0 → Type 0
State V = Option (Option V × List (DevicePendingOperation V) × Stamp)

module _ {V : Type 0} where
  -- What a patch writes.
  abbrev pub written : DevicePendingOperation V → Fields V → Fields V
  written op fields = select_mutable_card_patch fields (mask_of op fields)

  abbrev pub stamp : DevicePendingOperation V → Stamp
  stamp op = (op.op_id, op.base_revision, op.library_epoch, op.updated_at)

  abbrev pub receive :
      DevicePendingOperation V → List (DevicePendingOperation V) → List (DevicePendingOperation V)
  receive op reviews = if is_review op.operation then reviews ++ op ∷ [] else reviews

  -- What an operation `op` with the body given does to the field `k`.
  abbrev pub act : String → DevicePendingOperation V → Body V → State V → State V
  act k op (upserts card) state = some (field k card.fields, [], stamp op)
  act k op (patches card_id fields) none = none
  act k op (patches card_id fields) (some (value, reviews, last)) =
      some (or_else (field k (written op fields)) value, receive op reviews, stamp op)
  act k op (deletes card_id) state = none

  -- Operations on one card, run in order from a state of it.
  abbrev pub exec : String → List (DevicePendingOperation V) → State V → State V
  exec k [] state = state
  exec k (op ∷ ops) state = exec k ops (act k op op.body state)

  pub exec-append :
      (k : String) (xs ys : List (DevicePendingOperation V)) (state : State V)
      → exec k (xs ++ ys) state ≡ exec k ys (exec k xs state)
  exec-append k [] ys state = refl
  exec-append k (x ∷ xs) ys state = exec-append k xs ys (act k x x.body state)

  pub get-spread :
      (first second : Fields V) (k : String)
      → Keyed.IsDistinct text_discrete second
      → field k (spread first second) ≡ or_else (field k second) (field k first)
  unfolding spread Keyed.get
  get-spread first [] k d = refl
  get-spread first ((j, v) ∷ second) k d = ground (
    arith,
    get-spread (Keyed.put text_discrete j v first) second k d.1,
    Keyed.get-put text_discrete j k v first,
  )

  -- A patch has each field once, as an object has, and its mask names each of its fields that may
  -- be changed.
  abbrev pub Covers : DevicePendingOperation V → Body V → Type 0
  Covers op (upserts card) = Unit
  Covers op (patches card_id fields) =
      Keyed.IsDistinct text_discrete fields
      × ((k : String)
          → may_change k ≡ true
          → includes text_discrete (mask_of op fields) k ≡ false
          → field k fields ≡ none)
  Covers op (deletes card_id) = Unit

  abbrev pub IsCovered : DevicePendingOperation V → Type 0
  IsCovered op = Covers op op.body

  pub last?-split :
      (xs : List (DevicePendingOperation V)) {x : DevicePendingOperation V}
      → last? xs ≡ some x
      → xs ≡ drop_last xs ++ x ∷ []
  unfolding last? drop_last
  last?-split [] h = absurd (ground arith)
  last?-split (x ∷ []) h = ground arith
  last?-split (x ∷ y ∷ xs) h = ap (λ l. x ∷ l) (last?-split (y ∷ xs) h)

  pub last?-none : (xs : List (DevicePendingOperation V)) → last? xs ≡ none → xs ≡ []
  unfolding last?
  last?-none [] h = refl
  last?-none (x ∷ []) h = absurd (ground arith)
  last?-none (x ∷ y ∷ xs) h = absurd (cc (last?-none (y ∷ xs) h))

  -- What the last command does, after the ones before it.
  pub exec-last :
      (k : String) (xs : List (DevicePendingOperation V)) (x : DevicePendingOperation V)
      (state : State V)
      → last? xs ≡ some x
      → exec k xs state ≡ act k x x.body (exec k (drop_last xs) state)
  exec-last k xs x state h =
      ap (λ l. exec k l state) (last?-split xs h) ∙ exec-append k (drop_last xs) (x ∷ []) state
