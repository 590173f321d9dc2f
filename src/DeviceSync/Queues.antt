-- ===== src/DeviceSync/Queues.antt =====
-- The queues of `mergePendingOperations` of src/lib/deviceSync.ts, by owner and card.
use flash_card.Prelude.{
  ℕ, ◌≤◌, ◌≡◌, refl, ap, ◌∙◌, sym, subst, Bool, true, false, none, some, List, [], ◌∷◌, ◌++◌,
  String, same, arith, All, keep, ite, if◌then◌else◌,
}
use flash_card.Prelude.Text.{text_discrete}
use flash_card.Prelude.Keyed
use flash_card.Prelude.Sorting.{IsSorted}
use flash_card.DeviceSync.Operations.{
  DevicePendingOperation, Queues, fold_command, time_of, queue_key, queue_of, enqueue, enqueue_all,
  commands_of,
}
use flash_card.DeviceSync.Meaning.{State, exec, IsCovered}
use flash_card.DeviceSync.Commands.{IsQueue, later-IsQueue, fold_command-IsQueue}
use flash_card.DeviceSync.Effects.{exec-fold_command}

module _ {V : Type 0} where
  -- The operations of one queue.
  abbrev pub of_queue : String → List (DevicePendingOperation V) → List (DevicePendingOperation V)
  of_queue key ops =
      keep (λ (op : DevicePendingOperation V). same text_discrete (queue_key op) key) ops

  unfoldable pub fold_commands :
      List (DevicePendingOperation V)
      → List (DevicePendingOperation V)
      → List (DevicePendingOperation V)
  fold_commands commands [] = commands
  fold_commands commands (op ∷ ops) = fold_commands (fold_command commands op) ops

  queue_of-enqueue :
      (key : String) (queues : Queues V) (op : DevicePendingOperation V)
      → queue_of key (enqueue queues op) ≡ (
          if same text_discrete (queue_key op) key
          then fold_command (queue_of key queues) op
          else queue_of key queues)
  unfolding enqueue
  queue_of-enqueue key queues op = ground (
    arith,
    Keyed.get-put text_discrete (queue_key op) key
        (fold_command (queue_of (queue_key op) queues) op) queues,
  )

  fold_if :
      (b : Bool) (commands : List (DevicePendingOperation V)) (op : DevicePendingOperation V)
      (ops : List (DevicePendingOperation V))
      → fold_commands (if b then fold_command commands op else commands) ops
        ≡ fold_commands commands (if b then op ∷ ops else ops)
  unfolding fold_commands
  fold_if true commands op ops = refl
  fold_if false commands op ops = refl

  -- A queue is what its own operations make of it: the others do not touch it.
  pub queue_of-enqueue_all :
      (key : String) (queues : Queues V) (ops : List (DevicePendingOperation V))
      → queue_of key (enqueue_all queues ops)
        ≡ fold_commands (queue_of key queues) (of_queue key ops)
  unfolding enqueue_all fold_commands
  queue_of-enqueue_all key queues [] = refl
  queue_of-enqueue_all key queues (op ∷ ops) =
      queue_of-enqueue_all key (enqueue queues op) ops
      ∙ ap (λ l. fold_commands l (of_queue key ops)) (queue_of-enqueue key queues op)
      ∙ fold_if (same text_discrete (queue_key op) key) (queue_of key queues) op (of_queue key ops)

  pub fold_commands-IsQueue :
      (k key : String) (time : ℕ) (commands ops : List (DevicePendingOperation V)) (state : State V)
      → IsQueue key time commands
      → All (λ (op : DevicePendingOperation V). time ≤ op.updated_at) ops
      → IsSorted time_of ops
      → All (λ (op : DevicePendingOperation V). queue_key op ≡ key) ops
      → All IsCovered ops
      → IsSorted time_of (fold_commands commands ops)
        × (exec k (fold_commands commands ops) state ≡ exec k ops (exec k commands state))
  unfolding fold_commands
  fold_commands-IsQueue k key time commands [] state q l s o f = (q.sorted, refl)
  fold_commands-IsQueue k key time commands (op ∷ ops) state q l s o f =
      let (sorted, same_end) =
        fold_commands-IsQueue k key op.updated_at (fold_command commands op) ops state
          (fold_command-IsQueue key time commands op o.0 l.0 f.0 q) s.0 s.1 o.1 f.1 in
      (
        sorted,
        same_end ∙ ap (exec k ops) (exec-fold_command k key time commands op state l.0 f.0 q),
      )

  -- Every queue holds commands of its own key only.
  abbrev AreOwn : Queues V → Type 0
  AreOwn queues =
      All
        (λ (e : String × List (DevicePendingOperation V)).
          All (λ (op : DevicePendingOperation V). queue_key op ≡ e.0) e.1)
        queues

  keep-append :
      (p : DevicePendingOperation V → Bool) (xs ys : List (DevicePendingOperation V))
      → keep p (xs ++ ys) ≡ keep p xs ++ keep p ys
  keep-append p [] ys = refl
  keep-append p (x ∷ xs) ys = ground (arith, keep-append p xs ys)

  of_queue-own :
      (key : String) (xs : List (DevicePendingOperation V))
      → All (λ (op : DevicePendingOperation V). queue_key op ≡ key) xs
      → of_queue key xs ≡ xs
  of_queue-own key [] h = refl
  of_queue-own key (x ∷ xs) h = ground (arith, of_queue-own key xs h.1)

  of_queue-other :
      (key other : String) (xs : List (DevicePendingOperation V))
      → same text_discrete other key ≡ false
      → All (λ (op : DevicePendingOperation V). queue_key op ≡ other) xs
      → of_queue key xs ≡ []
  of_queue-other key other [] n h = refl
  of_queue-other key other (x ∷ xs) n h = ground (arith, of_queue-other key other xs n h.1)

  append_nil : (xs : List (DevicePendingOperation V)) → xs ++ [] ≡ xs
  append_nil [] = refl
  append_nil (x ∷ xs) = ap (λ l. x ∷ l) (append_nil xs)

  pub of_queue-commands_of :
      (key : String) (queues : Queues V)
      → Keyed.IsDistinct text_discrete queues
      → AreOwn queues
      → of_queue key (commands_of queues) ≡ queue_of key queues
  unfolding commands_of Keyed.get
  of_queue-commands_of key [] d a = refl
  of_queue-commands_of key ((j, commands) ∷ queues) d a = ground (
    arith,
    keep-append (λ op. same text_discrete (queue_key op) key) commands (commands_of queues),
    of_queue-own key commands,
    of_queue-other key j commands,
    append_nil commands,
    of_queue-commands_of key queues d.1 a.1,
  )

  enqueue-IsDistinct :
      (queues : Queues V) (op : DevicePendingOperation V)
      → Keyed.IsDistinct text_discrete queues
      → Keyed.IsDistinct text_discrete (enqueue queues op)
  unfolding enqueue
  enqueue-IsDistinct queues op d =
      Keyed.put-IsDistinct text_discrete (queue_key op)
        (fold_command (queue_of (queue_key op) queues) op) queues d

  -- Each of the queues is one, up to a time.
  abbrev AreQueues : ℕ → Queues V → Type 0
  AreQueues time queues =
      All (λ (e : String × List (DevicePendingOperation V)). IsQueue e.0 time e.1) queues

  queue_of-IsQueue :
      (key : String) (time : ℕ) (queues : Queues V)
      → AreQueues time queues
      → IsQueue key time (queue_of key queues)
  unfolding Keyed.get
  queue_of-IsQueue key time [] h = record { own = tt; past = tt; sorted = tt; covered = tt }
  queue_of-IsQueue key time ((j, commands) ∷ queues) h =
      elim (text_discrete j key)
        as (λ d.
          IsQueue key time (elim (ite d (some commands) (Keyed.get text_discrete key queues)) [
            | none ↦ []
            | some l ↦ l
          ])) [
            | yes e ↦ subst (λ x. IsQueue x time commands) e h.0
            | no n ↦ queue_of-IsQueue key time queues h.1
          ]

  put-each :
      (P : String × List (DevicePendingOperation V) → Type 0) (key : String)
      (commands : List (DevicePendingOperation V)) (queues : Queues V)
      → P (key, commands)
      → All P queues
      → All P (Keyed.put text_discrete key commands queues)
  unfolding Keyed.put
  put-each P key commands [] p h = (p, tt)
  put-each P key commands ((j, old) ∷ queues) p h =
      elim (text_discrete j key)
        as (λ d. All P (
          ite d ((j, commands) ∷ queues)
            ((j, old) ∷ Keyed.put text_discrete key commands queues))) [
              | yes e ↦ (subst (λ x. P (x, commands)) (sym e) p, h.1)
              | no n ↦ (h.0, put-each P key commands queues p h.1)
            ]

  later-AreQueues : (n m : ℕ) (queues : Queues V) → n ≤ m → AreQueues n queues → AreQueues m queues
  later-AreQueues n m [] l h = tt
  later-AreQueues n m ((j, commands) ∷ queues) l h =
      (later-IsQueue j n m commands l h.0, later-AreQueues n m queues l h.1)

  AreOwn-AreQueues : (time : ℕ) (queues : Queues V) → AreQueues time queues → AreOwn queues
  AreOwn-AreQueues time [] h = tt
  AreOwn-AreQueues time ((j, commands) ∷ queues) h = ((h.0).own, AreOwn-AreQueues time queues h.1)

  enqueue-AreQueues :
      (time : ℕ) (queues : Queues V) (op : DevicePendingOperation V)
      → time ≤ op.updated_at
      → IsCovered op
      → AreQueues time queues
      → AreQueues op.updated_at (enqueue queues op)
  unfolding enqueue
  enqueue-AreQueues time queues op l m q =
      let key = queue_key op in
      put-each (λ (e : String × List (DevicePendingOperation V)). IsQueue e.0 op.updated_at e.1) key
        (fold_command (queue_of key queues) op) queues
        (fold_command-IsQueue key time (queue_of key queues) op refl l m
          (queue_of-IsQueue key time queues q))
        (later-AreQueues time op.updated_at queues l q)

  pub enqueue_all-AreQueues :
      (time : ℕ) (queues : Queues V) (ops : List (DevicePendingOperation V))
      → All (λ (op : DevicePendingOperation V). time ≤ op.updated_at) ops
      → IsSorted time_of ops
      → All IsCovered ops
      → Keyed.IsDistinct text_discrete queues
      → AreQueues time queues
      → Keyed.IsDistinct text_discrete (enqueue_all queues ops) × AreOwn (enqueue_all queues ops)
  unfolding enqueue_all
  enqueue_all-AreQueues time queues [] l s m d q = (d, AreOwn-AreQueues time queues q)
  enqueue_all-AreQueues time queues (op ∷ ops) l s m d q =
      enqueue_all-AreQueues op.updated_at (enqueue queues op) ops s.0 s.1 m.1
        (enqueue-IsDistinct queues op d) (enqueue-AreQueues time queues op l.0 m.0 q)
