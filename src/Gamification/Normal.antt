-- ===== src/Gamification/Normal.antt =====
-- What the normalisation of pending operations in gamificationModel.ts keeps.
use flash_card.Prelude.{
  ◌≡◌, ◌≤◌, ◌<◌, refl, sym, ◌∙◌, ap, subst, leb, leb→le, true, false, Option, none, some, List, [],
  ◌∷◌, ◌++◌, map, String, Option-cases, Bool-cases, length, length-append, All, includes,
  includes-append, IsUnique, IsUnique-append_one, inl, inr, arith,
}
use flash_card.Prelude.Text.{text_discrete}
use flash_card.Prelude.Number.{Number}
use flash_card.Gamification.Values.{XpTexts, max_pending_xp_operations}
use flash_card.Gamification.Operations.{
  StoredXpOperation, PendingXpOperation, read_operation, store_operation, ids_of,
  is_valid_operation, accept_candidate, collect_operations, normalize_pending_xp_operations,
  join_parts, read_stream, read_legacy_id, client_of, sequence_of, legacy_of,
}

ids-append : (xs ys : List PendingXpOperation) → ids_of (xs ++ ys) ≡ ids_of xs ++ ids_of ys
ids-append [] ys = refl
ids-append (x ∷ xs) ys = ap (λ zs. x.id ∷ zs) (ids-append xs ys)

length-ids : (xs : List PendingXpOperation) → length (ids_of xs) ≡ length xs
length-ids [] = refl
length-ids (x ∷ xs) = omega (arith, length-ids xs)

read_stream-store :
    (o : Option (String × Number)) → read_stream (client_of o) (sequence_of o) ≡ some o
unfolding read_stream client_of sequence_of
read_stream-store none = refl
read_stream-store (some e) = refl

read_legacy_id-store : (o : Option String) → read_legacy_id (legacy_of o) ≡ some o
unfolding read_legacy_id legacy_of
read_legacy_id-store none = refl
read_legacy_id-store (some value) = refl

-- A stored operation is read as it was.
read_operation-store : (op : PendingXpOperation) → read_operation (store_operation op) ≡ some op
unfolding read_operation store_operation join_parts
read_operation-store op =
    rw (read_stream-store op.stream) (rw (read_legacy_id-store op.legacy_id) refl)

IsUnique-middle :
    (xs ys : List String) (y : String)
    → IsUnique text_discrete (xs ++ y ∷ ys)
    → includes text_discrete xs y ≡ false
IsUnique-middle [] ys y u = refl
IsUnique-middle (x ∷ xs) ys y u =
    ground (arith, IsUnique-middle xs ys y, includes-append text_discrete xs (y ∷ ys) x)

append_assoc :
    (xs : List PendingXpOperation) (y : PendingXpOperation) (ys : List PendingXpOperation)
    → (xs ++ y ∷ []) ++ ys ≡ xs ++ y ∷ ys
append_assoc [] y ys = refl
append_assoc (x ∷ xs) y ys = ap (λ zs. x ∷ zs) (append_assoc xs y ys)

append_nil : (xs : List PendingXpOperation) → xs ++ [] ≡ xs
append_nil [] = refl
append_nil (x ∷ xs) = ap (λ zs. x ∷ zs) (append_nil xs)

length_zero : (xs : List PendingXpOperation) → length xs ≡ 0 → xs ≡ []
length_zero [] h = refl
length_zero (x ∷ xs) h = absurd (ground arith)

module _ (texts : XpTexts) where
  abbrev pub AreValid : List PendingXpOperation → Type 0
  AreValid = All (λ op. is_valid_operation texts op ≡ true)

  -- Valid operations, each identifier once, and no more than there may be.
  pub record IsPendingList (operations : List PendingXpOperation) : Type 0 where
    pub all_valid : AreValid operations
    pub each_once : IsUnique text_discrete (ids_of operations)
    pub bounded : length operations ≤ max_pending_xp_operations

  AreValid-append :
      (xs : List PendingXpOperation) (op : PendingXpOperation)
      → AreValid xs
      → is_valid_operation texts op ≡ true
      → AreValid (xs ++ op ∷ [])
  AreValid-append [] op v h = (h, tt)
  AreValid-append (x ∷ xs) op v h = (v.0, AreValid-append xs op v.1 h)

  accept-new :
      (kept : List PendingXpOperation) (candidate : Option StoredXpOperation)
      (op : PendingXpOperation)
      → accept_candidate texts kept candidate ≡ some op
      → (is_valid_operation texts op ≡ true) × (includes text_discrete (ids_of kept) op.id ≡ false)
  unfolding accept_candidate
  accept-new kept none op h = absurd (ground arith)
  accept-new kept (some candidate) op h = elim (Option-cases (read_operation candidate)) [
    | inl bad ↦ absurd (ground arith)
    | inr (read, e) ↦ ground arith
  ]

  append-IsPendingList :
      (kept : List PendingXpOperation) (op : PendingXpOperation)
      → IsPendingList kept
      → is_valid_operation texts op ≡ true
      → includes text_discrete (ids_of kept) op.id ≡ false
      → length kept < max_pending_xp_operations
      → IsPendingList (kept ++ op ∷ [])
  append-IsPendingList kept op v h new room = record {
    all_valid = AreValid-append kept op v.all_valid h;
    each_once =
        rw (ids-append kept (op ∷ []))
          (IsUnique-append_one text_discrete (ids_of kept) op.id v.each_once new);
    bounded = omega (arith, room, length-append kept (op ∷ []));
  }

  collect-IsPendingList :
      (kept : List PendingXpOperation) (candidates : List (Option StoredXpOperation))
      → IsPendingList kept
      → length kept < max_pending_xp_operations
      → IsPendingList (collect_operations texts max_pending_xp_operations kept candidates)
  unfolding collect_operations
  collect-IsPendingList kept [] v room = v
  collect-IsPendingList kept (candidate ∷ candidates) v room =
      elim (Option-cases (accept_candidate texts kept candidate)) [
        | inl refused ↦ ground (arith, collect-IsPendingList kept candidates v room)
        | inr (op, e) ↦
            let new = accept-new kept candidate op e in
            let next = append-IsPendingList kept op v new.0 new.1 room in
            ground (arith, next, collect-IsPendingList (kept ++ op ∷ []) candidates next)
      ]

  -- Whatever is stored as the pending operations, what is kept of it are valid operations, each
  -- identifier once, and at most 2,048 of them.
  pub normalize_pending_xp_operations-IsPendingList :
      (value : Option (List (Option StoredXpOperation)))
      → IsPendingList (normalize_pending_xp_operations texts value)
  unfolding normalize_pending_xp_operations
  normalize_pending_xp_operations-IsPendingList none = ground arith
  normalize_pending_xp_operations-IsPendingList (some value) =
      collect-IsPendingList [] value (ground arith) (ground arith)

  abbrev pub stored : List PendingXpOperation → List (Option StoredXpOperation)
  stored = map (λ op. some (store_operation op))

  accept-stored :
      (kept : List PendingXpOperation) (op : PendingXpOperation)
      → is_valid_operation texts op ≡ true
      → includes text_discrete (ids_of kept) op.id ≡ false
      → accept_candidate texts kept (some (store_operation op)) ≡ some op
  unfolding accept_candidate
  accept-stored kept op h new = rw (read_operation-store op, accept_candidate) (ground arith)

  collect-stored :
      (kept operations : List PendingXpOperation)
      → AreValid operations
      → IsUnique text_discrete (ids_of (kept ++ operations))
      → length (kept ++ operations) ≤ max_pending_xp_operations
      → collect_operations texts max_pending_xp_operations kept (stored operations)
        ≡ kept ++ operations
  unfolding collect_operations
  collect-stored kept [] v u b = sym (append_nil kept)
  collect-stored kept (op ∷ operations) v u b =
      let more = kept ++ op ∷ [] in
      let assoc = append_assoc kept op operations in
      let new =
        IsUnique-middle (ids_of kept) (ids_of operations) op.id
          (subst (IsUnique text_discrete) (ids-append kept (op ∷ operations)) u) in
      let rest =
        collect-stored more operations v.1
          (subst (λ xs. IsUnique text_discrete (ids_of xs)) (sym assoc) u)
          (subst (λ xs. length xs ≤ max_pending_xp_operations) (sym assoc) b) in
      rw (accept-stored kept op v.0 new, collect_operations)
        (elim (Bool-cases (leb max_pending_xp_operations (length more))) [
          | inl full ↦ rw full (
              ap (λ xs. kept ++ op ∷ xs)
                (sym (
                  length_zero operations (
                    omega (
                      arith,
                      b,
                      leb→le max_pending_xp_operations (length more) full,
                      length-append more operations,
                      ap length assoc,
                    )))))
          | inr room ↦ rw room (rest ∙ assoc)
        ])

  -- A list of pending operations that is kept is kept as it is when it is normalised again.
  pub normalize_pending_xp_operations-stored :
      (operations : List PendingXpOperation)
      → IsPendingList operations
      → normalize_pending_xp_operations texts (some (stored operations)) ≡ operations
  unfolding normalize_pending_xp_operations
  normalize_pending_xp_operations-stored operations v =
      collect-stored [] operations v.all_valid v.each_once v.bounded
