-- ===== src/Prelude/Sorts.antt =====
-- A stable sort by a Boolean order, and what it keeps.
use vac.Prelude.Tests.{if◌then◌else◌, Bool-cases}
use vac.Prelude.Lists.{In}
use mathlib.Core.Logic.{inl, inr}
use mathlib.Core.Bool.{Bool}
use mathlib.Core.List.{List, [], ◌∷◌}

module _ {ℓ} {A : Type ℓ} (less : A → A → Bool) where
  abbrev pub insert : A → List A → List A
  insert x [] = x ∷ []
  insert x (y ∷ ys) = let rest = insert x ys in if less y x then y ∷ rest else x ∷ y ∷ ys

  abbrev pub sort : List A → List A
  sort [] = []
  sort (x ∷ xs) = insert x (sort xs)

module _ {A : Type 0} (less : A → A → Bool) where
  In-insert : (a : A) (x : A) (ys : List A) → In a (x ∷ ys) → In a (insert less x ys)
  In-insert a x [] m = m
  In-insert a x (y ∷ ys) m = elim (Bool-cases (less y x)) [
    | inr n ↦ rw n m
    | inl h ↦ rw h (elim m [
      | inl e ↦ inr (In-insert a x ys (inl e))
      | inr r ↦ elim r [ inl e ↦ inl e | inr k ↦ inr (In-insert a x ys (inr k)) ]
    ])
  ]

  insert-In : (a : A) (x : A) (ys : List A) → In a (insert less x ys) → In a (x ∷ ys)
  insert-In a x [] = λ m. m
  insert-In a x (y ∷ ys) = elim (Bool-cases (less y x)) [
    | inr n ↦ rw n (λ m. m)
    | inl h ↦ rw h (λ m. elim m [
      | inl e ↦ inr (inl e)
      | inr r ↦ elim (insert-In a x ys r) [ inl e ↦ inl e | inr k ↦ inr (inr k) ]
    ])
  ]

  -- A sort keeps the elements.
  pub In-sort : (a : A) (xs : List A) → In a xs → In a (sort less xs)
  In-sort a [] m = m
  In-sort a (x ∷ xs) (inl e) = In-insert a x (sort less xs) (inl e)
  In-sort a (x ∷ xs) (inr m) = In-insert a x (sort less xs) (inr (In-sort a xs m))

  pub sort-In : (a : A) (xs : List A) → In a (sort less xs) → In a xs
  sort-In a [] m = m
  sort-In a (x ∷ xs) m = elim (insert-In a x (sort less xs) m) [
    | inl e ↦ inl e
    | inr k ↦ inr (sort-In a xs k)
  ]
