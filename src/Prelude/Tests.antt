-- ===== src/Prelude/Tests.antt =====
-- Boolean tests on the native numbers, the conditional and splits on computed values.
use Prim.Native.Nat.{ℕ, ◌<◌, compare, Ordering}
use mathlib.Core.Path.{◌≡◌, refl}
use mathlib.Core.Logic.{◌↔◌, ◌⊎◌, inl, inr}
use mathlib.Core.Bool.{Bool, true, false, not, ◌&&◌, ◌||◌}
use mathlib.Core.Option.{Option, none, some}
use native.Mathlib.Omega.{arith}

abbrev pub ltb : ℕ → ℕ → Bool
ltb a b = elim (compare a b) [ Ordering.lt ↦ true | _ ↦ false ]

abbrev pub leb : ℕ → ℕ → Bool
leb a b = elim (compare a b) [ Ordering.gt ↦ false | _ ↦ true ]

infix 50 ◌==◌
abbrev pub ◌==◌ : ℕ → ℕ → Bool
a == b = elim (compare a b) [ Ordering.eq ↦ true | _ ↦ false ]

infix 1 if◌then◌else◌
abbrev pub if◌then◌else◌ {ℓ} : {A : Type ℓ} → Bool → A → A → A
if true then x else y = x
if false then x else y = y

pub ltb→lt : (a b : ℕ) → ltb a b ≡ true → a < b
ltb→lt a b h = ground arith

pub lt→ltb : (a b : ℕ) → a < b → ltb a b ≡ true
lt→ltb a b h = ground arith

pub ==_iff : (a b : ℕ) → ((a == b) ≡ true) ↔ (a ≡ b)
==_iff a b = ground arith

pub ==_refl : (a : ℕ) → (a == a) ≡ true
==_refl a = ground arith

pub Bool-cases : (b : Bool) → (b ≡ true) ⊎ (b ≡ false)
Bool-cases true = inl refl
Bool-cases false = inr refl

pub Option-cases {ℓ} : {A : Type ℓ} (o : Option A) → (o ≡ none) ⊎ ((a : A) × (o ≡ some a))
Option-cases none = inl refl
Option-cases (some a) = inr (a, refl)

abbrev pub is_some {ℓ} : {A : Type ℓ} → Option A → Bool
is_some none = false
is_some (some _) = true

-- Boolean connectives taken apart and put together.
pub ||-eq-false : (a b : Bool) → (a || b) ≡ false → (a ≡ false) × (b ≡ false)
||-eq-false false b h = (refl, h)
||-eq-false true b h = (h, cc)

pub ||-false : {a b : Bool} → a ≡ false → b ≡ false → (a || b) ≡ false
||-false p q = rw (p, q)

pub &&-eq-true : (a b : Bool) → (a && b) ≡ true → (a ≡ true) × (b ≡ true)
&&-eq-true true b h = (refl, h)
&&-eq-true false b h = (h, cc)

pub &&-true : {a b : Bool} → a ≡ true → b ≡ true → (a && b) ≡ true
&&-true p q = rw (p, q)

pub not-eq-true : (a : Bool) → not a ≡ true → a ≡ false
not-eq-true false h = refl
not-eq-true true h = cc

pub Either-cases : {A B : Type 0} (e : A ⊎ B) → ((a : A) × (e ≡ inl a)) ⊎ ((b : B) × (e ≡ inr b))
Either-cases (inl a) = inl (a, refl)
Either-cases (inr b) = inr (b, refl)

pub ||-right : (a b : Bool) → a ≡ false → (a || b) ≡ true → b ≡ true
||-right false b e h = h
||-right true b e h = cc

pub ||-elim {ℓ} : {C : Type ℓ} (a b : Bool) → (a ≡ true → C) → (b ≡ true → C) → (a || b) ≡ true → C
||-elim true b f g h = f refl
||-elim false b f g h = g h

pub ||-left : (a b : Bool) → a ≡ true → (a || b) ≡ true
||-left a b e = rw e refl

pub ||-second : (a b : Bool) → b ≡ true → (a || b) ≡ true
||-second true b e = refl
||-second false b e = e
