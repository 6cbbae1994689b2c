-- ===== src/Crashloop/Window.antt =====
-- The sliding window of api/internal/crashloop/monitor.go.
use vac.Crashloop.{record_death, trim}
use vac.Prelude.{
  List, ℕ, ◌<◌, Bool, any, ◌≡◌, ◌≤◌, ◌∷◌, ◌++◌, arith, keep, ltb, true, &&-eq-true, ◌+◌, [],
  any-keep, false, not, ◌||◌, ◌∙◌, ◌&&◌, Bool-cases, not-eq-true, subst, refl, inl, ap, sym, inr,
}

-- Whether no time is before the one ahead of it.
abbrev pub ascending : List ℕ → Bool
ascending [] = true
ascending (t ∷ ts) = not (any (λ u. ltb u t) ts) && ascending ts

-- The same of a history that has the latest time first.
abbrev pub latest_first : List ℕ → Bool
latest_first [] = true
latest_first (t ∷ ts) = not (any (λ u. ltb t u) ts) && latest_first ts

abbrev pub live : (max_age now : ℕ) → ℕ → Bool
live max_age now e = ltb now (e + max_age)

abbrev pub oldest_first : List ℕ → List ℕ
oldest_first [] = []
oldest_first (t ∷ ts) = oldest_first ts ++ t ∷ []

-- The window that the deaths of a history leave, from an empty one on.
abbrev pub after_deaths : (max_age : ℕ) → List ℕ → List ℕ
after_deaths max_age [] = []
after_deaths max_age (t ∷ ts) = record_death max_age t (after_deaths max_age ts)

keep_later :
    (max_age now e : ℕ) (es : List ℕ)
    → live max_age now e ≡ true
    → any (λ u. ltb u e) es ≡ false
    → keep (live max_age now) es ≡ es
keep_later max_age now e [] l h = refl
keep_later max_age now e (d ∷ ds) l h =
    let rest : keep (live max_age now) ds ≡ ds = keep_later max_age now e ds l (ground arith) in
    let on : live max_age now d ≡ true = ground arith in rw (on, rest) refl

trim-keep :
    (max_age now : ℕ) (es : List ℕ)
    → ascending es ≡ true
    → trim max_age now es ≡ keep (live max_age now) es
trim-keep max_age now [] h = refl
trim-keep max_age now (e ∷ es) h = elim (Bool-cases (live max_age now e)) [
  | inl on ↦ rw on (ap (λ l. e ∷ l) (sym (keep_later max_age now e es on (ground arith))))
  | inr off ↦ rw off (trim-keep max_age now es (ground arith))
]

ascending-keep : (q : ℕ → Bool) (es : List ℕ) → ascending es ≡ true → ascending (keep q es) ≡ true
ascending-keep q [] h = refl
ascending-keep q (e ∷ es) h = ground (arith, any-keep (λ u. ltb u e) q es, ascending-keep q es)

keep-append : (q : ℕ → Bool) (xs ys : List ℕ) → keep q (xs ++ ys) ≡ keep q xs ++ keep q ys
keep-append q [] ys = refl
keep-append q (x ∷ xs) ys = ground (arith, keep-append q xs ys)

any-append : (p : ℕ → Bool) (xs ys : List ℕ) → any p (xs ++ ys) ≡ any p xs || any p ys
any-append p [] ys = refl
any-append p (x ∷ xs) ys = ground (arith, any-append p xs ys)

any-oldest_first : (p : ℕ → Bool) (ts : List ℕ) → any p (oldest_first ts) ≡ any p ts
any-oldest_first p [] = refl
any-oldest_first p (t ∷ ts) =
    ground (arith, any-append p (oldest_first ts) (t ∷ []), any-oldest_first p ts)

ascending-append :
    (es : List ℕ) (t : ℕ)
    → any (λ u. ltb t u) es ≡ false
    → ascending es ≡ true
    → ascending (es ++ t ∷ []) ≡ true
ascending-append [] t h a = refl
ascending-append (e ∷ es) t h a =
    ground (arith, any-append (λ u. ltb u e) es (t ∷ []), ascending-append es t)

ascending-oldest_first : (ts : List ℕ) → latest_first ts ≡ true → ascending (oldest_first ts) ≡ true
ascending-oldest_first [] h = refl
ascending-oldest_first (t ∷ ts) h =
    ascending-append (oldest_first ts) t
      (any-oldest_first (λ u. ltb t u) ts ∙ not-eq-true _ (&&-eq-true _ _ h).0)
      (ascending-oldest_first ts (&&-eq-true _ _ h).1)

keep-keep :
    (max_age t u : ℕ) (es : List ℕ)
    → u ≤ t
    → keep (live max_age t) (keep (live max_age u) es) ≡ keep (live max_age t) es
keep-keep max_age t u [] h = refl
keep-keep max_age t u (e ∷ es) h = ground (arith, keep-keep max_age t u es h)

-- While the clock does not go back, a window of positive length holds exactly the deaths of the
-- whole history that are less than its length old at the latest death: dropping only the front of
-- the list loses none of them and keeps no other.
pub after_deaths-keep :
    (max_age t : ℕ) (ts : List ℕ)
    → 0 < max_age
    → latest_first (t ∷ ts) ≡ true
    → after_deaths max_age (t ∷ ts) ≡ keep (live max_age t) (oldest_first (t ∷ ts))
after_deaths-keep max_age t [] pos_age h = trim-keep max_age t (t ∷ []) refl
after_deaths-keep max_age t (u ∷ us) pos_age h =
    let before = after_deaths-keep max_age u us pos_age (&&-eq-true _ _ h).1 in
    let later : u ≤ t = ground arith in
    let on : live max_age u t ≡ true = ground arith in
    let joined : keep (live max_age u) (oldest_first (t ∷ u ∷ us))
        ≡ keep (live max_age u) (oldest_first (u ∷ us)) ++ t ∷ [] =
      keep-append (live max_age u) (oldest_first (u ∷ us)) (t ∷ []) ∙ rw on refl in
    rw before (
      subst (λ l. trim max_age t l ≡ keep (live max_age t) (oldest_first (t ∷ u ∷ us))) joined
        (trim-keep max_age t (keep (live max_age u) (oldest_first (t ∷ u ∷ us))) (
            ascending-keep (live max_age u) (oldest_first (t ∷ u ∷ us))
              (ascending-oldest_first (t ∷ u ∷ us) h))
          ∙ keep-keep max_age t u (oldest_first (t ∷ u ∷ us)) later))
