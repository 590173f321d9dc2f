-- ===== src/DeviceSync/Commands.antt =====
-- The commands of one card in `mergePendingOperations` of src/lib/deviceSync.ts, when one more
-- operation meets them.
use flash_card.Prelude.{
  ℕ, ◌≤◌, ◌≡◌, refl, ◌∙◌, some, List, [], ◌∷◌, ◌++◌, String, subst, arith, All, Option-cases, inl,
  inr,
}
use flash_card.Prelude.Sorting.{IsSorted}
use flash_card.CardProtocol.Protocol.{Fields}
use flash_card.DeviceSync.Operations.{
  Body, upserts, patches, deletes, DevicePendingOperation, fold_patches, last?, drop_last, meet,
  fold_command, time_of, queue_key, operation_target, target_of,
}
use flash_card.DeviceSync.Meaning.{Covers, IsCovered}
use flash_card.DeviceSync.Masks.{fold_patches-Covers}

module _ {V : Type 0} where
  -- The commands of one queue, in the order of their times, up to a time, with masks that cover them.
  pub record IsQueue (key : String) (time : ℕ) (commands : List (DevicePendingOperation V))
      : Type 0 where
    pub own : All (λ (op : DevicePendingOperation V). queue_key op ≡ key) commands
    pub past : All (λ (op : DevicePendingOperation V). op.updated_at ≤ time) commands
    pub sorted : IsSorted time_of commands
    pub covered : All IsCovered commands

  All-snoc :
      (P : DevicePendingOperation V → Type 0) (xs : List (DevicePendingOperation V))
      (x : DevicePendingOperation V)
      → All P xs
      → P x
      → All P (xs ++ x ∷ [])
  All-snoc P [] x h p = (p, tt)
  All-snoc P (y ∷ xs) x h p = (h.0, All-snoc P xs x h.1 p)

  All-drop_last :
      (P : DevicePendingOperation V → Type 0) (xs : List (DevicePendingOperation V))
      → All P xs
      → All P (drop_last xs)
  unfolding drop_last
  All-drop_last P [] h = tt
  All-drop_last P (x ∷ []) h = tt
  All-drop_last P (x ∷ y ∷ xs) h = (h.0, All-drop_last P (y ∷ xs) h.1)

  pub All-last :
      (P : DevicePendingOperation V → Type 0) (xs : List (DevicePendingOperation V))
      {x : DevicePendingOperation V}
      → last? xs ≡ some x
      → All P xs
      → P x
  unfolding last?
  All-last P [] h a = absurd (ground arith)
  All-last P (y ∷ []) {x} h a = let e : y ≡ x = ground arith in subst P e a.0
  All-last P (y ∷ z ∷ xs) h a = All-last P (z ∷ xs) h a.1

  snoc-IsSorted :
      (xs : List (DevicePendingOperation V)) (x : DevicePendingOperation V)
      → IsSorted time_of xs
      → All (λ y. y.updated_at ≤ x.updated_at) xs
      → IsSorted time_of (xs ++ x ∷ [])
  snoc-IsSorted [] x s a = (tt, tt)
  snoc-IsSorted (y ∷ xs) x s a =
      (All-snoc (λ z. y.updated_at ≤ z.updated_at) xs x s.0 a.0, snoc-IsSorted xs x s.1 a.1)

  drop_last-IsSorted :
      (xs : List (DevicePendingOperation V)) → IsSorted time_of xs → IsSorted time_of (drop_last xs)
  unfolding drop_last
  drop_last-IsSorted [] s = tt
  drop_last-IsSorted (x ∷ []) s = tt
  drop_last-IsSorted (x ∷ y ∷ xs) s = (
    All-drop_last (λ z. x.updated_at ≤ z.updated_at) (y ∷ xs) s.0,
    drop_last-IsSorted (y ∷ xs) s.1,
  )

  pub All-weaken :
      (n m : ℕ) (xs : List (DevicePendingOperation V))
      → n ≤ m
      → All (λ (op : DevicePendingOperation V). op.updated_at ≤ n) xs
      → All (λ (op : DevicePendingOperation V). op.updated_at ≤ m) xs
  All-weaken n m [] l h = tt
  All-weaken n m (x ∷ xs) l h = (omega arith, All-weaken n m xs l h.1)

  one-IsQueue :
      (op : DevicePendingOperation V) (key : String)
      → queue_key op ≡ key
      → IsCovered op
      → IsQueue key op.updated_at (op ∷ [])
  one-IsQueue op key o c = record {
    own = (o, tt);
    past = (omega arith, tt);
    sorted = (tt, tt);
    covered = (c, tt);
  }

  pub later-IsQueue :
      (key : String) (n m : ℕ) (commands : List (DevicePendingOperation V))
      → n ≤ m
      → IsQueue key n commands
      → IsQueue key m commands
  later-IsQueue key n m commands l q = record {
    own = q.own;
    past = All-weaken n m commands l q.past;
    sorted = q.sorted;
    covered = q.covered;
  }

  snoc-IsQueue :
      (op : DevicePendingOperation V) (key : String) (commands : List (DevicePendingOperation V))
      → queue_key op ≡ key
      → IsCovered op
      → IsQueue key op.updated_at commands
      → IsQueue key op.updated_at (commands ++ op ∷ [])
  snoc-IsQueue op key commands o c q = record {
    own = All-snoc (λ (x : DevicePendingOperation V). queue_key x ≡ key) commands op q.own o;
    past =
        All-snoc (λ (x : DevicePendingOperation V). x.updated_at ≤ op.updated_at) commands op q.past
          (omega arith);
    sorted = snoc-IsSorted commands op q.sorted q.past;
    covered = All-snoc IsCovered commands op q.covered c;
  }

  drop_last-IsQueue :
      (key : String) (n : ℕ) (commands : List (DevicePendingOperation V))
      → IsQueue key n commands
      → IsQueue key n (drop_last commands)
  drop_last-IsQueue key n commands q = record {
    own = All-drop_last (λ (x : DevicePendingOperation V). queue_key x ≡ key) commands q.own;
    past = All-drop_last (λ (x : DevicePendingOperation V). x.updated_at ≤ n) commands q.past;
    sorted = drop_last-IsSorted commands q.sorted;
    covered = All-drop_last IsCovered commands q.covered;
  }

  queue_key-fold_patches :
      (existing op : DevicePendingOperation V) (fields more : Fields V) (card_id : String)
      → op.body ≡ patches card_id more
      → queue_key (fold_patches existing fields op card_id more) ≡ queue_key op
  unfolding queue_key fold_patches operation_target target_of
  queue_key-fold_patches existing op fields more card_id h = ground arith

  meet-IsQueue :
      (key : String) (commands : List (DevicePendingOperation V))
      (existing op : DevicePendingOperation V) (b c : Body V)
      → op.body ≡ c
      → queue_key op ≡ key
      → Covers existing b
      → IsCovered op
      → IsQueue key op.updated_at commands
      → IsQueue key op.updated_at (meet commands existing b op c)
  unfolding meet fold_patches
  meet-IsQueue key commands existing op (deletes i) (upserts x) h o e m q =
      ground (arith, q, one-IsQueue op key o m)
  meet-IsQueue key commands existing op (deletes i) (patches j n) h o e m q = q
  meet-IsQueue key commands existing op (deletes i) (deletes j) h o e m q = q
  meet-IsQueue key commands existing op (upserts x) (deletes j) h o e m q = one-IsQueue op key o m
  meet-IsQueue key commands existing op (patches i fields) (deletes j) h o e m q =
      one-IsQueue op key o m
  meet-IsQueue key commands existing op (upserts x) (patches j n) h o e m q =
      snoc-IsQueue op key commands o m q
  meet-IsQueue key commands existing op (patches i fields) (upserts y) h o e m q =
      one-IsQueue op key o m
  meet-IsQueue key commands existing op (upserts x) (upserts y) h o e m q = one-IsQueue op key o m
  meet-IsQueue key commands existing op (patches i fields) (patches j more) h o e m q =
      let fold = fold_patches existing fields op j more in
      let own : queue_key fold ≡ key = queue_key-fold_patches existing op fields more j h ∙ o in
      let covered : IsCovered fold =
        fold_patches-Covers existing op i j fields more e (subst (Covers op) h m) in
      ground (
        arith,
        snoc-IsQueue op key commands o m q,
        snoc-IsQueue fold key (drop_last commands) own covered
            (drop_last-IsQueue key op.updated_at commands q),
      )

  -- One more operation, not earlier than the commands, joins them.
  pub fold_command-IsQueue :
      (key : String) (time : ℕ) (commands : List (DevicePendingOperation V))
      (op : DevicePendingOperation V)
      → queue_key op ≡ key
      → time ≤ op.updated_at
      → IsCovered op
      → IsQueue key time commands
      → IsQueue key op.updated_at (fold_command commands op)
  unfolding fold_command
  fold_command-IsQueue key time commands op o t m q = elim (Option-cases (last? commands)) [
    | inl empty ↦ rw (empty, fold_command) (one-IsQueue op key o m)
    | inr (existing, l) ↦
        rw (l, fold_command)
          (meet-IsQueue key commands existing op existing.body op.body refl o
            (All-last IsCovered commands l q.covered) m
            (later-IsQueue key time op.updated_at commands t q))
  ]
