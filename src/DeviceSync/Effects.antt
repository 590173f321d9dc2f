-- ===== src/DeviceSync/Effects.antt =====
-- What the commands of one queue in `mergePendingOperations` of src/lib/deviceSync.ts do, before and
-- after one more operation meets them.
use flash_card.Prelude.{
  ℕ, ◌≤◌, ◌≡◌, refl, some, List, [], ◌∷◌, String, arith, Option-cases, inl, inr,
}
use flash_card.DeviceSync.Operations.{
  Body, upserts, patches, deletes, DevicePendingOperation, fold_patches, last?, drop_last, meet,
  fold_command,
}
use flash_card.DeviceSync.Meaning.{
  State, act, exec, exec-append, exec-last, Covers, IsCovered, last?-none,
}
use flash_card.DeviceSync.Masks.{act-fold_patches}
use flash_card.DeviceSync.Commands.{IsQueue, All-last, All-weaken}

module _ {V : Type 0} where
  exec-meet :
      (k : String) (commands : List (DevicePendingOperation V))
      (existing op : DevicePendingOperation V) (b c : Body V) (state : State V)
      → last? commands ≡ some existing
      → existing.body ≡ b
      → op.body ≡ c
      → existing.updated_at ≤ op.updated_at
      → Covers existing b
      → Covers op c
      → exec k (meet commands existing b op c) state ≡ act k op c (exec k commands state)
  unfolding meet fold_patches
  exec-meet k commands existing op (deletes i) (upserts x) state l p q t f g = ground arith
  exec-meet k commands existing op (deletes i) (patches j m) state l p q t f g =
      ground (arith, exec-last k commands existing state l)
  exec-meet k commands existing op (deletes i) (deletes j) state l p q t f g =
      ground (arith, exec-last k commands existing state l)
  exec-meet k commands existing op (upserts x) (deletes j) state l p q t f g = ground arith
  exec-meet k commands existing op (patches i fields) (deletes j) state l p q t f g = ground arith
  exec-meet k commands existing op (upserts x) (patches j m) state l p q t f g =
      ground (arith, exec-append k commands (op ∷ []) state)
  exec-meet k commands existing op (patches i fields) (upserts y) state l p q t f g = ground arith
  exec-meet k commands existing op (upserts x) (upserts y) state l p q t f g = ground arith
  exec-meet k commands existing op (patches i fields) (patches j m) state l p q t f g = ground (
    arith,
    exec-append k commands (op ∷ []) state,
    exec-append k (drop_last commands) (fold_patches existing fields op j m ∷ []) state,
    act-fold_patches k existing op i j fields m (exec k (drop_last commands) state) f g,
    exec-last k commands existing state l,
  )

  -- What the commands do with one more operation is what they do and then what the operation does.
  pub exec-fold_command :
      (k key : String) (time : ℕ) (commands : List (DevicePendingOperation V))
      (op : DevicePendingOperation V) (state : State V)
      → time ≤ op.updated_at
      → IsCovered op
      → IsQueue key time commands
      → exec k (fold_command commands op) state ≡ act k op op.body (exec k commands state)
  unfolding fold_command
  exec-fold_command k key time commands op state t f q = elim (Option-cases (last? commands)) [
    | inl empty ↦ ground (arith, last?-none commands empty)
    | inr (existing, l) ↦
        let earlier : existing.updated_at ≤ op.updated_at =
          All-last (λ (x : DevicePendingOperation V). x.updated_at ≤ op.updated_at) commands l
            (All-weaken time op.updated_at commands t q.past) in
        rw (l, fold_command)
          (exec-meet k commands existing op existing.body op.body state l refl refl earlier
            (All-last IsCovered commands l q.covered) f)
  ]
