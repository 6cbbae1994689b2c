-- ===== src/Prelude/Lists.antt =====
-- Lists measured by native numbers, Boolean searches and the predicate that holds throughout a
-- list.
use Prim.Native.Nat.{ℕ, zero, suc, ◌+◌, ◌≤◌}
use mathlib.Core.Path.{◌≡◌, refl, ap, sym, subst}
use mathlib.Core.Bool.{Bool, true, false, ◌||◌}
use mathlib.Core.List.{List, [], ◌∷◌, ◌++◌, map}
use mathlib.Core.Logic.{◌⊎◌, inl, inr}
use native.Mathlib.Omega.{arith}
use vac.Prelude.Tests.{if◌then◌else◌, ◌==◌, ||-eq-false, ||-right, Bool-cases}

module _ {ℓ} {A : Type ℓ} where
  abbrev pub length : List A → ℕ
  length [] = 0
  length (x ∷ xs) = suc (length xs)

  abbrev pub take : ℕ → List A → List A
  take zero xs = []
  take (suc n) [] = []
  take (suc n) (x ∷ xs) = x ∷ take n xs

  abbrev pub drop : ℕ → List A → List A
  drop zero xs = xs
  drop (suc n) [] = []
  drop (suc n) (x ∷ xs) = drop n xs

  -- Whether some element passes the test.
  abbrev pub any : (A → Bool) → List A → Bool
  any p [] = false
  any p (x ∷ xs) = p x || any p xs

  -- The elements that pass the test, in order.
  abbrev pub keep : (A → Bool) → List A → List A
  keep p [] = []
  keep p (x ∷ xs) = if p x then x ∷ keep p xs else keep p xs

  -- How many elements pass the test.
  abbrev pub count : (A → Bool) → List A → ℕ
  count p [] = 0
  count p (x ∷ xs) = (if p x then 1 else 0) + count p xs

  pub length-append : (xs ys : List A) → length (xs ++ ys) ≡ length xs + length ys
  length-append [] ys = omega arith
  length-append (x ∷ xs) ys = omega (arith, length-append xs ys)

  pub count-le-length : (p : A → Bool) (xs : List A) → count p xs ≤ length xs
  count-le-length p [] = omega arith
  count-le-length p (x ∷ xs) = ground (arith, count-le-length p xs)

module _ {ℓ κ} {A : Type ℓ} where
  abbrev pub All : (A → Type κ) → List A → Type κ
  All P [] = Unit
  All P (x ∷ xs) = P x × All P xs

  pub All-intro : (P : A → Type κ) → ((a : A) → P a) → (xs : List A) → All P xs
  All-intro P f [] = tt
  All-intro P f (x ∷ xs) = (f x, All-intro P f xs)

  pub All-append : (P : A → Type κ) (xs ys : List A) → All P xs → All P ys → All P (xs ++ ys)
  All-append P [] ys hx hy = hy
  All-append P (x ∷ xs) ys hx hy = (hx.0, All-append P xs ys hx.1 hy)

  pub All-map : (P Q : A → Type κ) → ((a : A) → P a → Q a) → (xs : List A) → All P xs → All Q xs
  All-map P Q f [] h = tt
  All-map P Q f (x ∷ xs) h = (f x h.0, All-map P Q f xs h.1)

-- Membership, with the place where the element stands.
abbrev pub In : {A : Type 0} → A → List A → Type 0
In a [] = ⊥
In a (x ∷ xs) = (a ≡ x) ⊎ In a xs

-- Whether a number is listed.
abbrev pub elem : ℕ → List ℕ → Bool
elem a xs = any (λ x. x == a) xs

pub any-keep {ℓ} :
    {A : Type ℓ} (p q : A → Bool) (xs : List A) → any p xs ≡ false → any p (keep q xs) ≡ false
any-keep p q [] h = h
any-keep p q (x ∷ xs) h = ground (arith, any-keep p q xs)

-- A test that no element passes fails at each of them.
pub In-any :
    {A : Type 0} (p : A → Bool) (xs : List A) {a : A} → In a xs → any p xs ≡ false → p a ≡ false
In-any p [] m h = elim m [ ]
In-any p (x ∷ xs) (inl e) h = rw e (||-eq-false (p x) (any p xs) h).0
In-any p (x ∷ xs) (inr m) h = In-any p xs m (||-eq-false (p x) (any p xs) h).1

pub In-keep :
    {A : Type 0} (q : A → Bool) (xs : List A) {a : A} → In a xs → q a ≡ true → In a (keep q xs)
In-keep q [] m h = elim m [ ]
In-keep q (x ∷ xs) (inl e) h = rw (← e, h) (inl refl)
In-keep q (x ∷ xs) (inr m) h = elim (Bool-cases (q x)) [
  | inl y ↦ rw y (inr (In-keep q xs m h))
  | inr n ↦ rw n (In-keep q xs m h)
]

pub In-map : {A B : Type 0} (f : A → B) (xs : List A) (a : A) → In a xs → In (f a) (map f xs)
In-map f [] a m = elim m [ ]
In-map f (x ∷ xs) a (inl e) = inl (ap f e)
In-map f (x ∷ xs) a (inr m) = inr (In-map f xs a m)

pub count-append {ℓ} :
    {A : Type ℓ} (p : A → Bool) (xs ys : List A) → count p (xs ++ ys) ≡ count p xs + count p ys
count-append p [] ys = omega arith
count-append p (x ∷ xs) ys = ground (arith, count-append p xs ys)

-- Membership through ++, a search and a predicate that holds throughout.
pub In-append-left : {A : Type 0} (a : A) (xs ys : List A) → In a xs → In a (xs ++ ys)
In-append-left a [] ys m = elim m [ ]
In-append-left a (x ∷ xs) ys (inl e) = inl e
In-append-left a (x ∷ xs) ys (inr m) = inr (In-append-left a xs ys m)

pub In-append-right : {A : Type 0} (a : A) (xs ys : List A) → In a ys → In a (xs ++ ys)
In-append-right a [] ys m = m
In-append-right a (x ∷ xs) ys m = inr (In-append-right a xs ys m)

pub In-append-cases : {A : Type 0} (a : A) (xs ys : List A) → In a (xs ++ ys) → In a xs ⊎ In a ys
In-append-cases a [] ys m = inr m
In-append-cases a (x ∷ xs) ys (inl e) = inl (inl e)
In-append-cases a (x ∷ xs) ys (inr m) = elim (In-append-cases a xs ys m) [
  | inl l ↦ inl (inr l)
  | inr r ↦ inr r
]

pub any_found :
    {A : Type 0} (p : A → Bool) (xs : List A) → any p xs ≡ true → (a : A) × (In a xs × (p a ≡ true))
any_found p [] h = absurd cc
any_found p (x ∷ xs) h = elim (Bool-cases (p x)) [
  | inl y ↦ (x, (inl refl, y))
  | inr n ↦
      let found = any_found p xs (||-right (p x) (any p xs) n h) in
      (found.0, (inr found.1.0, found.1.1))
]

pub any_intro :
    {A : Type 0} (p : A → Bool) (xs : List A) {a : A} → In a xs → p a ≡ true → any p xs ≡ true
any_intro p [] m h = elim m [ ]
any_intro p (x ∷ xs) (inl e) h = rw (← e, h) refl
any_intro p (x ∷ xs) (inr m) h = ground (arith, any_intro p xs m h)

pub All-In {κ} : {A : Type 0} (P : A → Type κ) (xs : List A) {a : A} → All P xs → In a xs → P a
All-In P [] h m = elim m [ ]
All-In P (x ∷ xs) h (inl e) = subst P (sym e) h.0
All-In P (x ∷ xs) h (inr m) = All-In P xs h.1 m
