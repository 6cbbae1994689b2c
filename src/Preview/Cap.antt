-- ===== src/Preview/Cap.antt =====
-- The cap on the previews of a box.
use vac.Deploy.Schema.{ok}
use vac.Preview.Runs.{made_or, deleted_or, Operation, run_operations, run-keeps}
use vac.Preview.Service.{Settings}
use vac.Prelude.{
  Bool, ℕ, List, Text, leb, ◌≡◌, ◌==◌, count, false, some, ◌+◌, Bool-cases, keep, map, ◌≤◌, ap,
  arith, subst, inl, ◌∷◌, any, sym, inr, [], refl, not,
}
use vac.Preview.{
  at_push, PreviewApp, Box, count_previews, create_preview_app, delete_app, goes_with,
  touch_preview_push, has_app_id, is_taken,
}

count-keep :
    (q : PreviewApp → Bool) (xs : List PreviewApp)
    → count (λ a. a.is_preview) (keep q xs) ≤ count (λ a. a.is_preview) xs
count-keep q [] = omega arith
count-keep q (x ∷ xs) = ground (arith, count-keep q xs)

touched-is_preview : (now id : ℕ) (a : PreviewApp) → (at_push now id a).is_preview ≡ a.is_preview
touched-is_preview now id a = elim (Bool-cases (a.id == id)) [
  | inl y ↦ rw y refl
  | inr n ↦ rw n refl
]

count-touched :
    (now id : ℕ) (xs : List PreviewApp)
    → count (λ a. a.is_preview) (map (at_push now id) xs) ≡ count (λ a. a.is_preview) xs
count-touched now id [] = refl
count-touched now id (x ∷ xs) = rw (touched-is_preview now id x, count-touched now id xs) refl

count-created :
    (id now : ℕ) (parent : PreviewApp) (slug branch : Text) (b : Box) (r : PreviewApp × Box)
    → create_preview_app id now parent slug branch b ≡ some r
    → count_previews r.1 ≡ 1 + count_previews b
unfolding create_preview_app count_previews
count-created id now parent slug branch b r h =
    ap (λ t. count (λ a. a.is_preview) t.1.apps) (sym (made_or (is_taken id slug b.apps) _ r h).1)

count-deleted :
    (id : ℕ) (b b' : Box) → delete_app id b ≡ ok b' → count_previews b' ≤ count_previews b
unfolding delete_app count_previews
count-deleted id b b' h =
    subst (λ t. count (λ a. a.is_preview) t.apps ≤ count (λ a. a.is_preview) b.apps)
      (deleted_or (any (has_app_id id) b.apps) _ b' h)
      (count-keep (λ a. not (goes_with id b.apps a)) b.apps)

made-fits : (top k n m : ℕ) → top ≤ k → leb top n ≡ false → m ≡ 1 + n → m ≤ k
made-fits top k n m cap room more = ground arith

below-below : {l m n : ℕ} → l ≤ m → m ≤ n → l ≤ n
below-below a b = omega arith

-- The methods of the service, one after the other, never raise the number of previews above the cap,
-- or above what it was before them when that was more.
pub run-count_previews :
    (cfg : Settings) (k : ℕ) (os : List Operation) (b : Box)
    → cfg.max_previews ≤ k
    → count_previews b ≤ k
    → count_previews (run_operations cfg os b) ≤ k
unfolding count_previews touch_preview_push
run-count_previews cfg k os b cap few =
    run-keeps cfg (λ b. count_previews b ≤ k)
      (λ b b' e calls p. subst (λ t. count (λ a. a.is_preview) t ≤ k) (sym e) p) (λ call b h p. p)
      (λ now a b i pre p. subst (λ n. n ≤ k) (sym (count-touched now a.id b.apps)) p)
      (λ id now parent slug branch b r room h p.
        made-fits cfg.max_previews k (count_previews b) (count_previews r.1) cap room
          (count-created id now parent slug branch b r h))
      (λ a b i pre p. p) (λ a b b' i pre h p. below-below (count-deleted a.id b b' h) p) os b few
