-- ===== src/Preview/Valid.antt =====
-- A derived slug is one that the apps table takes: groups of lower-case letters and digits with single
-- hyphens between them, and at most 63 bytes.
use vac.Preview.Calm.{
  IsAlnum, IsSlug, is_alnum_sound, is_alnum_complete, IsCalm, EndsWell, slug_chars-IsCalm,
  take-IsCalm, trim-IsCalm, last, letter, group,
}
use vac.Preview.Slug.{
  is_alnum, slug_chars, is_hyphen, fitted, slugify, budget_of, derive_slug, joined,
}
use vac.Compose.Strings.{trim_right, unless_blank, to_lower}
use vac.Compose.Preflight.{is_empty}
use mathlib.Core.Bool.{false≢true}
use vac.Prelude.{
  Text, ℕ, Bool, ◌∷◌, [], ◌++◌, ◌≡◌, ◌⊎◌, inl, inr, true, false, not, take, Bool-cases, refl, arith,
  suc, zero, if◌then◌else◌, subst, ap, sym, ◌∙◌, length, ◌≤◌, ltb, ◌==◌, length-append, ◌-◌, All,
}

IsSlug-from :
    (c : ℕ) (cs : Text) → is_alnum c ≡ true → IsCalm false cs → EndsWell (c ∷ cs) → IsSlug (c ∷ cs)
IsSlug-from c [] y calm ends = last c (is_alnum_sound c y)
IsSlug-from c (d ∷ ds) y (inl z, calm) ends =
    letter c (d ∷ ds) (is_alnum_sound c y)
      (IsSlug-from d ds z (subst (λ (b : Bool). IsCalm b ds) (ap not z) calm) ends)
IsSlug-from c (d ∷ []) y (inr h, calm) ends =
    absurd (false≢true (subst (λ (n : ℕ). is_alnum n ≡ true) h.0 ends))
IsSlug-from c (d ∷ e ∷ es) y (inr h, (inl z, calm)) ends =
    subst (λ (n : ℕ). IsSlug (c ∷ n ∷ e ∷ es)) (sym h.0)
      (group c (e ∷ es) (is_alnum_sound c y)
        (IsSlug-from e es z (subst (λ (b : Bool). IsCalm b es) (ap not z) calm) ends))
IsSlug-from c (d ∷ e ∷ es) y (inr h, (inr k, calm)) ends =
    absurd (false≢true (sym k.1 ∙ ap (λ (n : ℕ). not (is_alnum n)) h.0))

IsSlug-nonempty : (s : Text) → IsCalm true s → EndsWell s → is_empty s ≡ false → IsSlug s
IsSlug-nonempty [] calm ends full = absurd (cc)
IsSlug-nonempty (c ∷ cs) (inl y, calm) ends full =
    IsSlug-from c cs y (subst (λ (b : Bool). IsCalm b cs) (ap not y) calm) ends
IsSlug-nonempty (c ∷ cs) (inr h, calm) ends full = absurd (cc)

IsSlug-append : (p s : Text) → IsSlug p → IsSlug s → IsSlug (p ++ b'-' ∷ s)
IsSlug-append p s (last c y) h = group c s y h
IsSlug-append p s (letter c t y r) h = letter c (t ++ b'-' ∷ s) y (IsSlug-append t s r h)
IsSlug-append p s (group c t y r) h = group c (t ++ b'-' ∷ s) y (IsSlug-append t s r h)

length-trim : (s : Text) → length (trim_right is_hyphen s) ≤ length s
unfolding trim_right
length-trim [] = omega arith
length-trim (c ∷ cs) = length_unless (trim_right is_hyphen cs) (length-trim cs)
  where
    length_unless :
        (t : Text) → length t ≤ length cs → length (unless_blank is_hyphen c t) ≤ suc (length cs)
    length_unless [] h = ground arith
    length_unless (d ∷ ds) h = omega arith

length-take_le : (n : ℕ) (s : Text) → length (take n s) ≤ n
length-take_le zero s = omega arith
length-take_le (suc n) [] = omega arith
length-take_le (suc n) (c ∷ cs) = omega (arith, length-take_le n cs)

-- A letter or a digit at the start survives.
trim_first :
    (c : ℕ) (cs : Text) → is_alnum c ≡ true → is_empty (trim_right is_hyphen (c ∷ cs)) ≡ false
unfolding trim_right
trim_first c cs y = kept (trim_right is_hyphen cs)
  where
    kept : (t : Text) → is_empty (unless_blank is_hyphen c t) ≡ false
    kept [] = ground arith
    kept (d ∷ ds) = refl

unless_blank-empty :
    (t : Text) → is_empty (unless_blank is_hyphen b'-' t) ≡ true → is_empty t ≡ true
unless_blank-empty [] h = refl
unless_blank-empty (d ∷ ds) h = h

dropped-silent :
    (l : Bool) (t : Text)
    → is_empty (trim_right is_hyphen (if l then t else b'-' ∷ t)) ≡ true
    → is_empty (trim_right is_hyphen t) ≡ true
unfolding trim_right
dropped-silent true t h = h
dropped-silent false t h = unless_blank-empty (trim_right is_hyphen t) h

-- A text without a slug has no letter and no digit.
slug_chars-silent :
    (l : Bool) (s : Text)
    → is_empty (trim_right is_hyphen (slug_chars l s)) ≡ true
    → All (λ c. ¬ IsAlnum c) s
unfolding slug_chars
slug_chars-silent l [] h = tt
slug_chars-silent l (c ∷ cs) h = elim (Bool-cases (is_alnum c)) [
  | inl y ↦ absurd (false≢true (sym (trim_first c (slug_chars false cs) y) ∙ (rw y at h)))
  | inr n ↦ (
    λ a. false≢true (sym n ∙ is_alnum_complete c a),
    slug_chars-silent true cs (dropped-silent l (slug_chars true cs) (rw n at h)),
  )
]

slugify-silent : (name : Text) → slugify name ≡ [] → All (λ c. ¬ IsAlnum c) (to_lower name)
unfolding slugify
slugify-silent name h = slug_chars-silent true (to_lower name) (ap is_empty h)

slugify-IsCalm : (name : Text) → IsCalm true (slugify name) × EndsWell (slugify name)
unfolding slugify
slugify-IsCalm name =
    trim-IsCalm true (slug_chars true (to_lower name)) (slug_chars-IsCalm true (to_lower name))

cut-IsSlug :
    (budget : ℕ) (s : Text)
    → IsCalm true s
    → is_empty s ≡ false
    → IsSlug (trim_right is_hyphen (take (suc budget) s))
cut-IsSlug budget [] calm full = absurd (cc)
cut-IsSlug budget (c ∷ cs) (inr h, calm) full = absurd (cc)
cut-IsSlug budget (c ∷ cs) (inl y, calm) full =
    let cut =
      trim-IsCalm true (c ∷ take budget cs)
        (inl y, take-IsCalm (not (is_alnum c)) budget cs calm) in
    IsSlug-nonempty (trim_right is_hyphen (c ∷ take budget cs)) cut.0 cut.1
      (trim_first c (take budget cs) y)

-- What is cut to a budget of at least one byte stays a slug, within the budget.
fitted-IsSlug :
    (budget : ℕ) (s : Text)
    → IsCalm true s
    → EndsWell s
    → is_empty s ≡ false
    → IsSlug (fitted (suc budget) s) × (length (fitted (suc budget) s) ≤ suc budget)
unfolding fitted
fitted-IsSlug budget s calm ends full = elim (Bool-cases (ltb (suc budget) (length s))) [
  | inr n ↦ rw n (IsSlug-nonempty s calm ends full, ground arith)
  | inl y ↦ rw y (
    cut-IsSlug budget s calm full,
    omega (arith, length-trim (take (suc budget) s), length-take_le (suc budget) s),
  )
]

joined-IsSlug :
    (parent bs : Text)
    → IsSlug parent
    → IsSlug bs
    → (joined parent bs ≡ parent ++ b'-' ∷ bs) × IsSlug (joined parent bs)
joined-IsSlug parent bs p (last c y) = (refl, IsSlug-append parent (c ∷ []) p (last c y))
joined-IsSlug parent bs p (letter c t y h) = (refl, IsSlug-append parent (c ∷ t) p (letter c t y h))
joined-IsSlug parent bs p (group c t y h) =
    (refl, IsSlug-append parent (c ∷ b'-' ∷ t) p (group c t y h))

empty_text : (s : Text) → is_empty s ≡ true → s ≡ []
empty_text [] h = refl
empty_text (c ∷ cs) h = absurd cc

fits :
    (parent bs : Text)
    → IsSlug parent
    → is_empty bs ≡ false
    → IsCalm true bs
    → EndsWell bs
    → (budget : ℕ) → budget_of parent ≡ suc budget
    → (rest : Text) × (joined parent (fitted (budget_of parent) bs) ≡ parent ++ b'-' ∷ rest)
      × IsSlug (joined parent (fitted (budget_of parent) bs))
      × (length (joined parent (fitted (budget_of parent) bs)) ≤ 63)
fits parent bs p full calm ends budget room =
    let fit = fitted-IsSlug budget bs calm ends full in
    let whole = joined-IsSlug parent (fitted (suc budget) bs) p fit.0 in
    rw room (
      fitted (suc budget) bs,
      whole.0,
      whole.1,
      omega (
        arith,
        ap length whole.0,
        length-append parent (b'-' ∷ fitted (suc budget) bs),
        fit.1,
        room,
      ),
    )

-- The slug of a preview, where its parent's slug is in groups of lower-case letters and digits with
-- single hyphens between them: either DeriveSlug answers the empty text, and then the branch has no
-- letter and no digit or the parent's slug has 62 bytes or more, or the slug is the parent's, a hyphen and some
-- text, is of that form too, and has at most 63 bytes, as a DNS label may.
pub derive_slug_valid :
    (parent branch : Text)
    → IsSlug parent
    → ((derive_slug parent branch ≡ [])
        × (All (λ c. ¬ IsAlnum c) (to_lower branch) ⊎ (62 ≤ length parent)))
      ⊎ ((rest : Text) × (derive_slug parent branch ≡ parent ++ b'-' ∷ rest)
          × IsSlug (derive_slug parent branch)
          × (length (derive_slug parent branch) ≤ 63))
unfolding derive_slug
derive_slug_valid parent branch p = elim (Bool-cases (is_empty (slugify branch))) [
  | inl y ↦ inl (rw y refl, inl (slugify-silent branch (empty_text (slugify branch) y)))
  | inr n ↦ elim (Bool-cases (budget_of parent == 0)) [
    | inl y ↦ inl (rw (n, y) refl, inr (ground arith))
    | inr k ↦
        rw (n, k)
          (inr (
            fits parent (slugify branch) p n (slugify-IsCalm branch).0 (slugify-IsCalm branch).1
              (budget_of parent - 1) (ground arith)))
  ]
]
