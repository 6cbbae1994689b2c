-- ===== src/Webhook/Trigger/Glob.antt =====
-- globMatch of api/internal/webhook/webhook.go against its comment: `*` is any run of characters, `?`
-- exactly one, and everything else is literal. A newline is in no run, since `.` does not match it.
use vac.Webhook.Trigger.{glob_match, star}
use vac.Prelude.{
  Text, Bool, [], ◌≡◌, ◌++◌, not, true, any, ◌∷◌, ◌==◌, Bool-cases, arith, ℕ, false, inl, inr, ap,
  refl, subst, ◌↔◌, sym,
}

abbrev pub one_line : Text → Bool
one_line s = not (any (λ c. c == 10) s)

-- The comment as a relation between a pattern and a text.
pub data Matches : Text → Text → Type 0 where
  finish : Matches [] []
  run :
      {p s rest : Text} (skipped : Text)
      → s ≡ skipped ++ rest
      → one_line skipped ≡ true
      → Matches p rest
      → Matches (b'*' ∷ p) s
  one : {p s : Text} (c : ℕ) → (c == 10) ≡ false → Matches p s → Matches (b'?' ∷ p) (c ∷ s)
  literal :
      {p s : Text} (c : ℕ)
      → (c == b'*') ≡ false
      → (c == b'?') ≡ false
      → Matches p s
      → Matches (c ∷ p) (c ∷ s)

star-run :
    (f : Text → Bool) (skipped rest : Text)
    → one_line skipped ≡ true
    → f rest ≡ true
    → star f (skipped ++ rest) ≡ true
star-run f [] [] l h = h
star-run f [] (c ∷ cs) l h = ground arith
star-run f (c ∷ cs) rest l h = ground (arith, star-run f cs rest)

run-star :
    (f : Text → Bool) (s : Text)
    → star f s ≡ true
    → (skipped : Text) × (rest : Text) × (s ≡ skipped ++ rest)
      × (one_line skipped ≡ true)
      × (f rest ≡ true)
run-star f [] h = ([], [], refl, refl, h)
run-star f (c ∷ cs) h = elim (Bool-cases (f (c ∷ cs))) [
  | inl now ↦ ([], c ∷ cs, refl, refl, now)
  | inr later ↦
      let (skipped, rest, e, l, m) = run-star f cs (ground arith) in
      (c ∷ skipped, rest, ap (λ t. c ∷ t) e, ground arith, m)
]

glob_match_sound : (p s : Text) → glob_match p s ≡ true → Matches p s
unfolding glob_match
glob_match_sound [] [] h = finish
glob_match_sound [] (c ∷ cs) h = absurd (ground arith)
glob_match_sound (p ∷ ps) [] h =
    let is_star : p ≡ b'*' = ground arith in
    subst (λ q. Matches (q ∷ ps) []) (sym is_star)
      (run [] refl refl (glob_match_sound ps [] (ground arith)))
glob_match_sound (p ∷ ps) (c ∷ cs) h = elim (Bool-cases (p == b'*')) [
  | inl y ↦
      let is_star : p ≡ b'*' = ground arith in
      let (skipped, rest, e, l, m) = run-star (glob_match ps) (c ∷ cs) (rw y at h) in
      subst (λ q. Matches (q ∷ ps) (c ∷ cs)) (sym is_star)
        (run skipped e l (glob_match_sound ps rest m))
  | inr not_star ↦ elim (Bool-cases (p == b'?')) [
    | inl y ↦
        let is_mark : p ≡ b'?' = ground arith in
        subst (λ q. Matches (q ∷ ps) (c ∷ cs)) (sym is_mark)
          (one c (ground arith) (glob_match_sound ps cs (ground arith)))
    | inr not_mark ↦
        let same : c ≡ p = ground arith in
        subst (λ q. Matches (p ∷ ps) (q ∷ cs)) (sym same)
          (literal p not_star not_mark (glob_match_sound ps cs (ground arith)))
  ]
]

star-glob : (ps s : Text) → star (glob_match ps) s ≡ true → glob_match (b'*' ∷ ps) s ≡ true
unfolding glob_match
star-glob ps [] h = h
star-glob ps (c ∷ cs) h = h

glob_match_complete : {p s : Text} → Matches p s → glob_match p s ≡ true
unfolding glob_match
glob_match_complete finish = refl
glob_match_complete (run {p} {s} {rest} skipped e l m) = star-glob p s (
    subst (λ t. star (glob_match p) t ≡ true) (sym e)
      (star-run (glob_match p) skipped rest l (glob_match_complete m)))
glob_match_complete (one c n m) = ground (arith, glob_match_complete m)
glob_match_complete (literal c s q m) = ground (arith, glob_match_complete m)

-- A filter matches a name exactly as its comment says: `*` stands for any run of characters, slashes
-- included, `?` for exactly one, and every other character for itself, over the whole name; neither
-- wildcard stands for a newline.
pub glob_match-Matches : (p s : Text) → (glob_match p s ≡ true) ↔ Matches p s
glob_match-Matches p s = (glob_match_sound p s, glob_match_complete)
