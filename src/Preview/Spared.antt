-- ===== src/Preview/Spared.antt =====
-- An app that is no preview, through every method of the service.
use vac.Prelude.{
  Bool, In, List, Text, ℕ, ◌≡◌, ◌==◌, All, Bool-cases, false, not, some, subst, true, any, inr,
  keep, map, sym, ◌||◌, inl, All-In, In-keep, arith, texts_eq, ◌∷◌, refl, In-map, [], ||-second,
  ◌∙◌, any_intro, texts_eq_refl, none, length, ap, ||-false,
}
use vac.Deploy.Schema.{ok}
use mathlib.Core.Bool.{false≢true}
use vac.Preview.Runs.{Operation, run_operations, run-keeps, IsHarmless, made_or, deleted_or}
use vac.Preview.Service.{Settings}
use vac.Preview.{
  at_push, PreviewApp, Box, Call, compose_down, route_teardown, route_reconcile, cap_reached,
  fresh_preview, create_preview_app, delete_app, touch_preview_push, has_app_id, is_taken,
  goes_with, is_under,
}

-- The previews have other ids and other slugs than `a`.
abbrev pub IsDistinct : PreviewApp → PreviewApp → Type 0
IsDistinct a p = p.is_preview ≡ true → (¬ (p.id ≡ a.id)) × (¬ (p.slug ≡ a.slug))

-- Calls that do not bring the stack of `a` down.
abbrev pub IsSafe : PreviewApp → Call → Type 0
IsSafe a call = ¬ (call ≡ compose_down a.slug)

pub record IsSpared (a : PreviewApp) (b : Box) : Type 0 where
  pub listed : In a b.apps
  pub rootless : a.parent_app_id ≡ none
  pub distinct : All (IsDistinct a) b.apps
  pub standing : All (IsSafe a) b.calls

harmless-IsSafe : (a : PreviewApp) (call : Call) → IsHarmless call → IsSafe a call
harmless-IsSafe a (compose_down slug) h = absurd h
harmless-IsSafe a (route_teardown id) h = λ e. absurd cc
harmless-IsSafe a route_reconcile h = λ e. absurd cc
harmless-IsSafe a (cap_reached p s) h = λ e. absurd cc

at_push-other : (now id : ℕ) (a : PreviewApp) → ¬ (id ≡ a.id) → at_push now id a ≡ a
at_push-other now id a h = elim (Bool-cases (a.id == id)) [
  | inl y ↦ absurd (h (ground arith))
  | inr n ↦ rw n refl
]

at_push-IsDistinct :
    (now id : ℕ) (a p : PreviewApp) → IsDistinct a p → IsDistinct a (at_push now id p)
at_push-IsDistinct now id a p h = elim (Bool-cases (p.id == id)) [ inl y ↦ rw y h | inr n ↦ rw n h ]

at_push-All :
    (now id : ℕ) (a : PreviewApp) (xs : List PreviewApp)
    → All (IsDistinct a) xs
    → All (IsDistinct a) (map (at_push now id) xs)
at_push-All now id a [] h = h
at_push-All now id a (x ∷ xs) h = (at_push-IsDistinct now id a x h.0, at_push-All now id a xs h.1)

keep-All :
    (q : PreviewApp → Bool) (a : PreviewApp) (xs : List PreviewApp)
    → All (IsDistinct a) xs
    → All (IsDistinct a) (keep q xs)
keep-All q a [] h = h
keep-All q a (x ∷ xs) h = elim (Bool-cases (q x)) [
  | inl y ↦ rw y (h.0, keep-All q a xs h.1)
  | inr n ↦ rw n (keep-All q a xs h.1)
]

touched-IsSpared :
    (now : ℕ) (a p : PreviewApp) (b : Box)
    → In p b.apps
    → p.is_preview ≡ true
    → IsSpared a b
    → IsSpared a (touch_preview_push now p.id b)
unfolding touch_preview_push
touched-IsSpared now a p b i pre s = record {
  listed =
      subst (λ x. In x (map (at_push now p.id) b.apps))
        (at_push-other now p.id a (All-In (IsDistinct a) b.apps s.distinct i pre).0)
        (In-map (at_push now p.id) b.apps a s.listed);
  rootless = s.rootless;
  distinct = at_push-All now p.id a b.apps s.distinct;
  standing = s.standing;
}

taken_id :
    (id : ℕ) (slug : Text) (a : PreviewApp)
    → id ≡ a.id
    → (a.id == id || texts_eq a.slug slug) ≡ true
taken_id id slug a e = ground arith

taken_slug :
    (id : ℕ) (slug : Text) (a : PreviewApp)
    → slug ≡ a.slug
    → (a.id == id || texts_eq a.slug slug) ≡ true
taken_slug id slug a e =
    ||-second (a.id == id) (texts_eq a.slug slug)
      (subst (λ t. texts_eq a.slug t ≡ true) (sym e) (texts_eq_refl a.slug))

free-IsDistinct :
    (id now : ℕ) (parent : PreviewApp) (slug branch : Text) (a : PreviewApp)
    (apps : List PreviewApp)
    → is_taken id slug apps ≡ false
    → In a apps
    → IsDistinct a (fresh_preview id now parent slug branch)
free-IsDistinct id now parent slug branch a apps free i = λ pre. (
  λ e. false≢true (sym free ∙ any_intro _ apps i (taken_id id slug a e)),
  λ e. false≢true (sym free ∙ any_intro _ apps i (taken_slug id slug a e)),
)

created-IsSpared :
    (a : PreviewApp) (id now : ℕ) (parent : PreviewApp) (slug branch : Text) (b : Box)
    (r : PreviewApp × Box)
    → create_preview_app id now parent slug branch b ≡ some r
    → IsSpared a b
    → IsSpared a r.1
unfolding create_preview_app
created-IsSpared a id now parent slug branch b r h s =
    let m = made_or (is_taken id slug b.apps) _ r h in
    subst (λ t. IsSpared a t.1) m.1
      (record {
        listed = inr s.listed;
        rootless = s.rootless;
        distinct = (free-IsDistinct id now parent slug branch a b.apps m.0 s.listed, s.distinct);
        standing = s.standing;
      })

-- An app without a parent goes with no other app.
other-kept :
    (p a : PreviewApp) (apps : List PreviewApp)
    → ¬ (p.id ≡ a.id)
    → a.parent_app_id ≡ none
    → not (goes_with p.id apps a) ≡ true
other-kept p a apps h alone = elim (Bool-cases (a.id == p.id)) [
  | inl y ↦ absurd (h (ground arith))
  | inr n ↦
      let stays : is_under (length apps) apps p.id a.parent_app_id ≡ false =
        ap (is_under (length apps) apps p.id) alone in
      ap not (||-false n stays)
]

deleted-IsSpared :
    (a p : PreviewApp) (b b' : Box)
    → In p b.apps
    → p.is_preview ≡ true
    → delete_app p.id b ≡ ok b'
    → IsSpared a b
    → IsSpared a b'
unfolding delete_app
deleted-IsSpared a p b b' i pre h s =
    subst (IsSpared a) (deleted_or (any (has_app_id p.id) b.apps) _ b' h) (record {
      listed =
          In-keep (λ x. not (goes_with p.id b.apps x)) b.apps s.listed
            (other-kept p a b.apps (All-In (IsDistinct a) b.apps s.distinct i pre).0 s.rootless);
      rootless = s.rootless;
      distinct = keep-All (λ x. not (goes_with p.id b.apps x)) a b.apps s.distinct;
      standing = s.standing;
    })

slug-injective : (s t : Text) → compose_down s ≡ compose_down t → s ≡ t
slug-injective s t e = cc

-- An app that has no parent, and that no preview shares its id or its slug with, stays in the table, and no method of the service,
-- whatever runs before or after it, brings its stack down.
pub run-IsSpared :
    (cfg : Settings) (a : PreviewApp) (os : List Operation) (b : Box)
    → IsSpared a b
    → IsSpared a (run_operations cfg os b)
run-IsSpared cfg a os b s =
    run-keeps cfg (IsSpared a)
      (λ b b' e calls s. record {
        listed = subst (In a) (sym e) s.listed;
        rootless = s.rootless;
        distinct = subst (All (IsDistinct a)) (sym e) s.distinct;
        standing = subst (All (IsSafe a)) (sym calls) s.standing;
      })
      (λ call b h s. record {
        listed = s.listed;
        rootless = s.rootless;
        distinct = s.distinct;
        standing = (harmless-IsSafe a call h, s.standing);
      })
      (λ now p b i pre s. touched-IsSpared now a p b i pre s)
      (λ id now parent slug branch b r room h s.
        created-IsSpared a id now parent slug branch b r h s)
      (λ p b i pre s. record {
        listed = s.listed;
        rootless = s.rootless;
        distinct = s.distinct;
        standing = (
          λ e. (All-In (IsDistinct a) b.apps s.distinct i pre).1 (slug-injective p.slug a.slug e),
          s.standing,
        );
      })
      (λ p b b' i pre h s. deleted-IsSpared a p b b' i pre h s) os b s
