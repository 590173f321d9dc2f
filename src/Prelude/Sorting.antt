-- ===== src/Prelude/Sorting.antt =====
-- The stable `sort` of the source's arrays, by a numeric key, and how it meets a filter.
use Prim.Native.Nat.{ℕ, ◌+◌, ◌≤◌}
use mathlib.Core.Path.{◌≡◌, refl, ap, ◌∙◌}
use mathlib.Core.Bool.{Bool, true, false}
use mathlib.Core.List.{List, [], ◌∷◌}
use mathlib.Core.Logic.{inl, inr}
use native.Mathlib.Omega.{arith}
use flash_card.Prelude.Lists.{All, keep, length}
use flash_card.Prelude.Tests.{if◌then◌else◌, leb, Bool-cases}

either : {A : Type 0} (P : A → Type 0) (b : Bool) {x y : A} → P x → P y → P (if b then x else y)
either P true h k = h
either P false h k = k

module _ {A : Type 0} (time : A → ℕ) where
  unfoldable pub insert : A → List A → List A
  insert x [] = x ∷ []
  insert x (y ∷ ys) =
      let later = insert x ys in if leb (time x) (time y) then x ∷ (y ∷ ys) else y ∷ later

  unfoldable pub sort : List A → List A
  unfolding insert
  sort [] = []
  sort (x ∷ xs) = insert x (sort xs)

  abbrev pub IsSorted : List A → Type 0
  IsSorted [] = Unit
  IsSorted (x ∷ xs) = All (λ y. time x ≤ time y) xs × IsSorted xs

  All-insert : (P : A → Type 0) (x : A) (ys : List A) → P x → All P ys → All P (insert x ys)
  unfolding insert
  All-insert P x [] px h = (px, tt)
  All-insert P x (y ∷ ys) px h =
      either (All P) (leb (time x) (time y)) (px, h) (h.0, All-insert P x ys px h.1)

  pub All-sort : (P : A → Type 0) (xs : List A) → All P xs → All P (sort xs)
  unfolding sort
  All-sort P [] h = tt
  All-sort P (x ∷ xs) h = All-insert P x (sort xs) h.0 (All-sort P xs h.1)

  length-insert : (x : A) (ys : List A) → length (insert x ys) ≡ length ys + 1
  unfolding insert
  length-insert x [] = refl
  length-insert x (y ∷ ys) = ground (arith, length-insert x ys)

  pub length-sort : (xs : List A) → length (sort xs) ≡ length xs
  unfolding sort
  length-sort [] = refl
  length-sort (x ∷ xs) = omega (arith, length-insert x (sort xs), length-sort xs)

  All-le : (n m : ℕ) (xs : List A) → n ≤ m → All (λ y. m ≤ time y) xs → All (λ y. n ≤ time y) xs
  All-le n m [] l h = tt
  All-le n m (x ∷ xs) l h = (omega arith, All-le n m xs l h.1)

  insert-IsSorted : (x : A) (ys : List A) → IsSorted ys → IsSorted (insert x ys)
  unfolding insert
  insert-IsSorted x [] s = (tt, tt)
  insert-IsSorted x (y ∷ ys) s = elim (Bool-cases (leb (time x) (time y))) [
    | inl e ↦ rw (e, insert) ((ground arith, All-le (time x) (time y) ys (ground arith) s.0), s)
    | inr e ↦
        rw (e, insert)
          (All-insert (λ z. time y ≤ time z) x ys (ground arith) s.0, insert-IsSorted x ys s.1)
  ]

  pub sort-IsSorted : (xs : List A) → IsSorted (sort xs)
  unfolding sort
  sort-IsSorted [] = tt
  sort-IsSorted (x ∷ xs) = insert-IsSorted x (sort xs) (sort-IsSorted xs)

  insert_least : (x : A) (ys : List A) → All (λ y. time x ≤ time y) ys → insert x ys ≡ x ∷ ys
  unfolding insert
  insert_least x [] h = refl
  insert_least x (y ∷ ys) h = ground arith

  -- A sorted list is its own sort.
  pub sort_of_IsSorted : (xs : List A) → IsSorted xs → sort xs ≡ xs
  unfolding sort
  sort_of_IsSorted [] s = refl
  sort_of_IsSorted (x ∷ xs) s = ap (insert x) (sort_of_IsSorted xs s.1) ∙ insert_least x xs s.0

  pub All-keep : (P : A → Type 0) (p : A → Bool) (xs : List A) → All P xs → All P (keep p xs)
  All-keep P p [] h = tt
  All-keep P p (x ∷ xs) h = either (All P) (p x) (h.0, All-keep P p xs h.1) (All-keep P p xs h.1)

  keep-insert :
      (p : A → Bool) (x : A) (ys : List A)
      → IsSorted ys
      → keep p (insert x ys) ≡ (if p x then insert x (keep p ys) else keep p ys)
  unfolding insert
  keep-insert p x [] s = ground arith
  keep-insert p x (y ∷ ys) s =
      let least = λ (h : time x ≤ time y).
        insert_least x (keep p ys)
          (All-keep (λ z. time x ≤ time z) p ys (All-le (time x) (time y) ys h s.0)) in
      elim (Bool-cases (leb (time x) (time y))) [
        | inl e ↦ ground (arith, least (ground arith))
        | inr e ↦ ground (arith, keep-insert p x ys s.1)
      ]

  -- The sort is stable: what a filter keeps stands in the order in which it stood.
  pub keep-sort : (p : A → Bool) (xs : List A) → keep p (sort xs) ≡ sort (keep p xs)
  unfolding sort
  keep-sort p [] = refl
  keep-sort p (x ∷ xs) =
      ground (arith, keep-insert p x (sort xs) (sort-IsSorted xs), keep-sort p xs)
