-- ===== src/Prelude/Lists.antt =====
-- Lists measured and indexed by native numbers, and predicates on lists by recursion.
use Prim.Native.Nat.{ℕ, zero, suc, ◌+◌, ◌<◌, ◌≤◌, min}
use mathlib.Core.Path.{◌≡◌, refl, ap}
use mathlib.Core.Logic.{◌≢◌}
use mathlib.Core.Bool.{Bool, true, false, not, ◌&&◌, ◌||◌}
use mathlib.Core.List.{List, [], ◌∷◌, ◌++◌}
use mathlib.Core.Option.{Option, none, some}
use native.Mathlib.Omega.{arith}
use flash_card.Prelude.Tests.{if◌then◌else◌, same}

module _ {ℓ} {A : Type ℓ} where
  abbrev pub length : List A → ℕ
  length [] = 0
  length (x ∷ xs) = suc (length xs)

  abbrev pub get_elem? : List A → ℕ → Option A
  get_elem? [] i = none
  get_elem? (x ∷ xs) zero = some x
  get_elem? (x ∷ xs) (suc i) = get_elem? xs i

  -- A write out of bounds changes nothing.
  abbrev pub set : List A → ℕ → A → List A
  set [] i v = []
  set (x ∷ xs) zero v = v ∷ xs
  set (x ∷ xs) (suc i) v = x ∷ set xs i v

  abbrev pub take : ℕ → List A → List A
  take zero xs = []
  take (suc n) [] = []
  take (suc n) (x ∷ xs) = x ∷ take n xs

  abbrev pub drop : ℕ → List A → List A
  drop zero xs = xs
  drop (suc n) [] = []
  drop (suc n) (x ∷ xs) = drop n xs

  abbrev pub replicate : ℕ → A → List A
  replicate zero a = []
  replicate (suc n) a = a ∷ replicate n a

  -- `xs.filter(p)`
  abbrev pub keep : (A → Bool) → List A → List A
  keep p [] = []
  keep p (x ∷ xs) = let rest = keep p xs in if p x then x ∷ rest else rest

  -- `xs.some(p)`
  abbrev pub any : (A → Bool) → List A → Bool
  any p [] = false
  any p (x ∷ xs) = let rest = any p xs in if p x then true else rest

  -- `xs.find(p)`
  abbrev pub find : (A → Bool) → List A → Option A
  find p [] = none
  find p (x ∷ xs) = let rest = find p xs in if p x then some x else rest

  -- A predicate at every element; it computes to a tuple.
  abbrev pub All {κ} : (A → Type κ) → List A → Type κ
  All P [] = Unit
  All P (x ∷ xs) = P x × All P xs

  pub length-append : (xs ys : List A) → length (xs ++ ys) ≡ length xs + length ys
  length-append [] ys = omega arith
  length-append (x ∷ xs) ys = omega (arith, length-append xs ys)

  pub length-keep-le : (p : A → Bool) (xs : List A) → length (keep p xs) ≤ length xs
  length-keep-le p [] = omega arith
  length-keep-le p (x ∷ xs) = ground (arith, length-keep-le p xs)

  pub length-take : (n : ℕ) (xs : List A) → length (take n xs) ≡ min n (length xs)
  length-take zero xs = omega arith
  length-take (suc n) [] = omega arith
  length-take (suc n) (x ∷ xs) = omega (arith, length-take n xs)

module _ {ℓ} {A : Type ℓ} where
  pub length-set : (xs : List A) (i : ℕ) (v : A) → length (set xs i v) ≡ length xs
  length-set [] i v = refl
  length-set (x ∷ xs) zero v = refl
  length-set (x ∷ xs) (suc i) v = ap suc (length-set xs i v)

  pub get_elem?-set_self :
      (xs : List A) (i : ℕ) (v : A) → i < length xs → get_elem? (set xs i v) i ≡ some v
  get_elem?-set_self [] i v h = elim h [ ]
  get_elem?-set_self (x ∷ xs) zero v h = refl
  get_elem?-set_self (x ∷ xs) (suc i) v h = get_elem?-set_self xs i v (omega arith)

  pub get_elem?-set_ne :
      (xs : List A) {i j : ℕ} (v : A) → i ≢ j → get_elem? (set xs i v) j ≡ get_elem? xs j
  get_elem?-set_ne [] v h = refl
  get_elem?-set_ne (x ∷ xs) {i = zero} {j = zero} v h = absurd (h refl)
  get_elem?-set_ne (x ∷ xs) {i = zero} {j = suc j} v h = refl
  get_elem?-set_ne (x ∷ xs) {i = suc i} {j = zero} v h = refl
  get_elem?-set_ne (x ∷ xs) {i = suc i} {j = suc j} v h = get_elem?-set_ne xs v (λ e. h (ap suc e))

module _ {ℓ} {A : Type ℓ} where
  -- `xs.findIndex(p)`, counted from `i`; `none` is -1
  abbrev pub find_index_from : ℕ → (A → Bool) → List A → Option ℕ
  find_index_from i p [] = none
  find_index_from i p (x ∷ xs) =
      let rest = find_index_from (suc i) p xs in if p x then some i else rest

  pub find_index_from-lt :
      (i : ℕ) (p : A → Bool) (xs : List A) (j : ℕ)
      → find_index_from i p xs ≡ some j
      → (i ≤ j) × (j < i + length xs)
  find_index_from-lt i p [] j h = absurd (ground arith)
  find_index_from-lt i p (x ∷ xs) j h = ground (arith, find_index_from-lt (suc i) p xs j)

  -- `xs.splice(i, 1, ...ys)`
  abbrev pub splice_one : ℕ → List A → List A → List A
  splice_one i ys xs = take i xs ++ (ys ++ drop (suc i) xs)

  pub length-splice_one :
      (i : ℕ) (ys xs : List A)
      → i < length xs
      → length (splice_one i ys xs) + 1 ≡ length ys + length xs
  length-splice_one i ys [] h = elim h [ ]
  length-splice_one zero ys (x ∷ xs) h = omega (arith, length-append ys xs)
  length-splice_one (suc i) ys (x ∷ xs) h = omega (arith, length-splice_one i ys xs)

  pub get_elem?-splice_one :
      (i : ℕ) (y : A) (ys xs : List A)
      → i < length xs
      → get_elem? (splice_one i (y ∷ ys) xs) i ≡ some y
  get_elem?-splice_one i y ys [] h = elim h [ ]
  get_elem?-splice_one zero y ys (x ∷ xs) h = refl
  get_elem?-splice_one (suc i) y ys (x ∷ xs) h = get_elem?-splice_one i y ys xs (omega arith)

module _ {ℓ} {A : Type ℓ} (dec : Discrete A) where
  -- `xs.includes(a)`, and `has` of a `Set`
  abbrev pub includes : List A → A → Bool
  includes [] a = false
  includes (x ∷ xs) a = let rest = includes xs a in if same dec x a then true else rest

  -- `set.add(a)`
  abbrev pub add : A → List A → List A
  add a xs = if includes xs a then xs else xs ++ a ∷ []

  -- `new Set(xs)`, added to the members `seen`
  abbrev pub add_all : List A → List A → List A
  add_all seen [] = seen
  add_all seen (x ∷ xs) = add_all (add x seen) xs

  -- `set.delete(a)`
  abbrev pub delete : A → List A → List A
  delete a xs = keep (λ x. not (same dec x a)) xs

  -- No element stands twice.
  abbrev pub IsUnique : List A → Type 0
  IsUnique [] = Unit
  IsUnique (x ∷ xs) = (includes xs x ≡ false) × IsUnique xs

  pub includes-append :
      (xs ys : List A) (a : A) → includes (xs ++ ys) a ≡ (includes xs a || includes ys a)
  includes-append [] ys a = refl
  includes-append (x ∷ xs) ys a = ground (arith, includes-append xs ys a)

  pub IsUnique-append_one :
      (xs : List A) (a : A) → IsUnique xs → includes xs a ≡ false → IsUnique (xs ++ a ∷ [])
  IsUnique-append_one [] a u h = ground arith
  IsUnique-append_one (x ∷ xs) a u h =
      ground (arith, IsUnique-append_one xs a, includes-append xs (a ∷ []) x)

  pub includes-add :
      (a b : A) (xs : List A) → includes (add a xs) b ≡ (includes xs b || same dec a b)
  includes-add a b xs = ground (arith, includes-append xs (a ∷ []) b)

  pub includes-delete :
      (a b : A) (xs : List A) → includes (delete a xs) b ≡ (includes xs b && not (same dec a b))
  includes-delete a b [] = refl
  includes-delete a b (x ∷ xs) = ground (arith, includes-delete a b xs)

  pub add-IsUnique : (a : A) (xs : List A) → IsUnique xs → IsUnique (add a xs)
  add-IsUnique a xs u = ground (arith, IsUnique-append_one xs a)

  pub delete-IsUnique : (a : A) (xs : List A) → IsUnique xs → IsUnique (delete a xs)
  delete-IsUnique a [] u = tt
  delete-IsUnique a (x ∷ xs) u = ground (arith, delete-IsUnique a xs, includes-delete a x xs)
