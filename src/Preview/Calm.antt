-- ===== src/Preview/Calm.antt =====
-- What slugify of api/internal/preview/preview.go leaves of a text: letters, digits and single hyphens.
use vac.Preview.Slug.{is_alnum, slug_chars, is_hyphen}
use vac.Compose.Strings.{trim_right, unless_blank}
use vac.Prelude.{
  Text, ℕ, Bool, ◌∷◌, [], ◌≡◌, ◌⊎◌, inl, inr, true, false, not, take, Bool-cases, refl, arith, suc,
  zero, if◌then◌else◌, subst, ap, sym, ◌≤◌,
}

-- A lower-case letter or a digit of ASCII.
abbrev pub IsAlnum : ℕ → Type 0
IsAlnum c = ((b'a' ≤ c) × (c ≤ b'z')) ⊎ ((b'0' ≤ c) × (c ≤ b'9'))

-- ^[a-z0-9]+(-[a-z0-9]+)*$
pub data IsSlug : Text → Type 0 where
  last : (c : ℕ) → IsAlnum c → IsSlug (c ∷ [])
  letter : (c : ℕ) (s : Text) → IsAlnum c → IsSlug s → IsSlug (c ∷ s)
  group : (c : ℕ) (s : Text) → IsAlnum c → IsSlug s → IsSlug (c ∷ b'-' ∷ s)

pub is_alnum_sound : (c : ℕ) → is_alnum c ≡ true → IsAlnum c
is_alnum_sound c h = ground arith

pub is_alnum_complete : (c : ℕ) → IsAlnum c → is_alnum c ≡ true
is_alnum_complete c (inl (a, z)) = ground arith
is_alnum_complete c (inr (a, z)) = ground arith

-- No hyphen at the start, if the flag is set, nor behind another one.
abbrev pub IsCalm : (last_hyphen : Bool) → Text → Type 0
IsCalm last_hyphen [] = Unit {0}
IsCalm last_hyphen (c ∷ cs) =
    ((is_alnum c ≡ true) ⊎ ((c ≡ b'-') × (last_hyphen ≡ false))) × IsCalm (not (is_alnum c)) cs

abbrev pub EndsWell : Text → Type 0
EndsWell [] = Unit {0}
EndsWell (c ∷ []) = is_alnum c ≡ true
EndsWell (c ∷ d ∷ ds) = EndsWell (d ∷ ds)

-- What is not a letter or a digit becomes a hyphen, if none stands before it.
separated-IsCalm : (l : Bool) (t : Text) → IsCalm true t → IsCalm l (if l then t else b'-' ∷ t)
separated-IsCalm true t h = h
separated-IsCalm false t h = (inr (refl, refl), h)

pub slug_chars-IsCalm : (l : Bool) (s : Text) → IsCalm l (slug_chars l s)
unfolding slug_chars
slug_chars-IsCalm l [] = tt
slug_chars-IsCalm l (c ∷ cs) = elim (Bool-cases (is_alnum c)) [
  | inl y ↦ rw y (
    inl y,
    subst (λ (b : Bool). IsCalm b (slug_chars false cs)) (ap not (sym y))
        (slug_chars-IsCalm false cs),
  )
  | inr n ↦ rw n (separated-IsCalm l (slug_chars true cs) (slug_chars-IsCalm true cs))
]

pub take-IsCalm : (l : Bool) (n : ℕ) (s : Text) → IsCalm l s → IsCalm l (take n s)
take-IsCalm l zero s h = tt
take-IsCalm l (suc n) [] h = tt
take-IsCalm l (suc n) (c ∷ cs) h = (h.0, take-IsCalm (not (is_alnum c)) n cs h.1)

alnum_of :
    {l : Bool} (c : ℕ)
    → is_hyphen c ≡ false
    → (is_alnum c ≡ true) ⊎ ((c ≡ b'-') × (l ≡ false))
    → is_alnum c ≡ true
alnum_of c n (inl y) = y
alnum_of c n (inr h) = absurd (ground arith)

-- A trimmed text: the first byte stays, or the text is empty.
unless_blank-IsCalm :
    (l : Bool) (c : ℕ) (t : Text)
    → (is_alnum c ≡ true) ⊎ ((c ≡ b'-') × (l ≡ false))
    → IsCalm (not (is_alnum c)) t
    → EndsWell t
    → IsCalm l (unless_blank is_hyphen c t) × EndsWell (unless_blank is_hyphen c t)
unless_blank-IsCalm l c [] first calm ends = elim (Bool-cases (is_hyphen c)) [
  | inl y ↦ rw y (tt, tt)
  | inr n ↦ rw n ((first, tt), alnum_of c n first)
]
unless_blank-IsCalm l c (d ∷ ds) first calm ends = ((first, calm), ends)

pub trim-IsCalm :
    (l : Bool) (s : Text)
    → IsCalm l s
    → IsCalm l (trim_right is_hyphen s) × EndsWell (trim_right is_hyphen s)
unfolding trim_right
trim-IsCalm l [] h = (tt, tt)
trim-IsCalm l (c ∷ cs) h =
    let rest = trim-IsCalm (not (is_alnum c)) cs h.1 in
    unless_blank-IsCalm l c (trim_right is_hyphen cs) h.0 rest.0 rest.1
