-- ===== src/Preview/Runs.antt =====
-- Sequences of the preview service's methods, and a rule for what they all keep.
use vac.Preview.{
  PreviewApp, Box, Call, compose_down, route_teardown, route_reconcile, cap_reached, get_app,
  first_app, found, get_preview_by_parent_and_branch, count_previews, list_expired_previews,
  touch_preview_push, create_preview_app, delete_app, is_preview_of, has_app_id,
}
use vac.Preview.Service.{
  Settings, logged, handed, enqueue_preview, deployed_new, create_capped, offered, ensure_from,
  ensure_preview, interrupted, notified, reaped, taken_down, tear_down, teardown_from, teardown,
  teardown_found, teardown_by_branch, teardown_each, sweep_once,
}
use vac.Preview.Slug.{derive_slug}
use vac.Deploy.Schema.{Db, Result, ok, err, Error, Deployment, not_found, active_deployment_exists}
use vac.Deploy.Table.{create_deployment, has_active_deployment}
use vac.Deploy.Worker.{Worker, enqueue}
use vac.Compose.Preflight.{is_empty}
use mathlib.Core.Option.{some-injective}
use vac.Prelude.{
  Text, ℕ, Bool, List, Option, ◌∷◌, [], ◌≡◌, if◌then◌else◌, none, some, true, false, In, inl, inr,
  refl, Bool-cases, ◌==◌, leb, sym, ◌⊎◌, ap, ◌∙◌, &&-eq-true, subst,
}

pub data Operation : Type 0 where
  ensure : (id deployment_id now parent_id : ℕ) → (branch : Text) → Operation
  remove : (preview_id : ℕ) → Operation
  branch_deleted : (parent_id : ℕ) → (branch : Text) → Operation
  tick : (now : ℕ) → Operation

abbrev pub run_operation : Settings → Operation → Box → Box
run_operation cfg (ensure id d now parent branch) b =
    (ensure_preview cfg id d now parent branch b).0
run_operation cfg (remove id) b = (teardown cfg id b).0
run_operation cfg (branch_deleted parent branch) b = (teardown_by_branch cfg parent branch b).0
run_operation cfg (tick now) b = sweep_once cfg now b

unfoldable pub run_operations : Settings → List Operation → Box → Box
run_operations cfg [] b = b
run_operations cfg (o ∷ os) b = run_operations cfg os (run_operation cfg o b)

first_or :
    (here : Bool) (x a : PreviewApp) (rest : Option PreviewApp)
    → (if here then some x else rest) ≡ some a
    → ((here ≡ true) × (x ≡ a)) ⊎ (rest ≡ some a)
first_or true x a rest h = inl (refl, some-injective x a h)
first_or false x a rest h = inr h

first_app-In :
    (p : PreviewApp → Bool) (xs : List PreviewApp) (a : PreviewApp)
    → first_app p xs ≡ some a
    → In a xs × (p a ≡ true)
first_app-In p [] a h = absurd cc
first_app-In p (x ∷ xs) a h = elim (first_or (p x) x a (first_app p xs) h) [
  | inl here ↦ (inl (sym here.1), ap p (sym here.1) ∙ here.0)
  | inr later ↦ (inr (first_app-In p xs a later).0, (first_app-In p xs a later).1)
]

found-some : (o : Option PreviewApp) (a : PreviewApp) → found o ≡ ok a → o ≡ some a
found-some none a h = absurd cc
found-some (some x) a h = cc

-- What the two statements that may fail return.
pub made_or :
    (taken : Bool) (x r : PreviewApp × Box)
    → (if taken then none else some x) ≡ some r
    → (taken ≡ false) × (x ≡ r)
made_or true x r h = absurd cc
made_or false x r h = (refl, some-injective x r h)

pub deleted_or : (here : Bool) (x b : Box) → (if here then ok x else err not_found) ≡ ok b → x ≡ b
deleted_or true x b h = cc
deleted_or false x b h = absurd cc

-- A call that brings no stack down.
abbrev pub IsHarmless : Call → Type 0
IsHarmless (compose_down slug) = ⊥
IsHarmless _ = Unit {0}

logged-apps : (wired : Bool) (call : Call) (b : Box) → (logged wired call b).apps ≡ b.apps
logged-apps true call b = refl
logged-apps false call b = refl

interrupted-apps : (cfg : Settings) (id : ℕ) (b : Box) → (interrupted cfg id b).apps ≡ b.apps
interrupted-apps cfg id b = elim (Bool-cases cfg.has_canceller) [
  | inl y ↦ rw y refl
  | inr n ↦ rw n refl
]

-- What every change keeps, every method keeps.
module _ (cfg : Settings) (P : Box → Type 0)
    (quiet : (b b' : Box) → b'.apps ≡ b.apps → b'.calls ≡ b.calls → P b → P b')
    (noted : (call : Call) (b : Box)
      → IsHarmless call
      → P b
      → P (record b { calls = call ∷ b.calls }))
    (touched : (now : ℕ) (a : PreviewApp) (b : Box)
      → In a b.apps
      → a.is_preview ≡ true
      → P b
      → P (touch_preview_push now a.id b))
    (created : (id now : ℕ) (parent : PreviewApp) (slug branch : Text) (b : Box)
        (r : PreviewApp × Box)
      → leb cfg.max_previews (count_previews b) ≡ false
      → create_preview_app id now parent slug branch b ≡ some r
      → P b
      → P r.1)
    (downed : (a : PreviewApp) (b : Box)
      → In a b.apps
      → a.is_preview ≡ true
      → P b
      → P (record b { calls = compose_down a.slug ∷ b.calls }))
    (deleted : (a : PreviewApp) (b b' : Box)
      → In a b.apps
      → a.is_preview ≡ true
      → delete_app a.id b ≡ ok b'
      → P b
      → P b') where
  logged-keeps :
      (wired : Bool) (call : Call) (b : Box) → IsHarmless call → P b → P (logged wired call b)
  logged-keeps true call b h p = noted call b h p
  logged-keeps false call b h p = p

  offered-keeps : (db : Db) (w : Option Worker) (b : Box) → P b → P (offered db w b).0
  offered-keeps db none b p = quiet b (record b { db = db }) refl refl p
  offered-keeps db (some w) b p = quiet b (record b { db = db; worker = w }) refl refl p

  handed-keeps : (made : Result (Deployment × Db)) (b : Box) → P b → P (handed made b).0
  handed-keeps (ok (d, db)) b p = offered-keeps db (enqueue d.id b.worker) b p
  handed-keeps (err active_deployment_exists) b p = p
  handed-keeps (err not_found) b p = p
  handed-keeps (err Error.rollback_source_invalid) b p = p
  handed-keeps (err Error.foreign_key) b p = p
  handed-keeps (err Error.unique_violation) b p = p

  enqueue-keeps : (d now id : ℕ) (b : Box) → P b → P (enqueue_preview d now id b).0
  unfolding enqueue_preview
  enqueue-keeps d now id b p = elim (Bool-cases (has_active_deployment id b.db)) [
    | inl y ↦ rw y p
    | inr n ↦ rw n (handed-keeps (create_deployment d now id "preview" none b.db) b p)
  ]

  deployed-keeps :
      (id d now : ℕ) (parent : PreviewApp) (slug branch : Text) (b : Box)
      (made : Option (PreviewApp × Box))
      → leb cfg.max_previews (count_previews b) ≡ false
      → create_preview_app id now parent slug branch b ≡ made
      → P b
      → P (deployed_new d now made b).0
  deployed-keeps id d now parent slug branch b none room h p = p
  deployed-keeps id d now parent slug branch b (some (app, b')) room h p =
      enqueue-keeps d now app.id b' (created id now parent slug branch b (app, b') room h p)

  create_capped-keeps :
      (id d now : ℕ) (parent : PreviewApp) (branch : Text) (b : Box)
      → P b
      → P (create_capped cfg id d now parent branch b).0
  create_capped-keeps id d now parent branch b p = elim (Bool-cases (cfg.max_previews == 0)) [
    | inl y ↦ rw y p
    | inr n ↦ rw n (elim (Bool-cases (leb cfg.max_previews (count_previews b))) [
      | inl y ↦ rw y (logged-keeps cfg.has_notifier (cap_reached parent.id branch) b tt p)
      | inr room ↦ rw room (elim (Bool-cases (is_empty (derive_slug parent.slug branch))) [
        | inl y ↦ rw y p
        | inr k ↦ rw k (
            deployed-keeps id d now parent (derive_slug parent.slug branch) branch b
              (create_preview_app id now parent (derive_slug parent.slug branch) branch b) room refl
              p)
      ])
    ])
  ]

  ensure_from-keeps :
      (id d now : ℕ) (branch : Text) (parent existing : Result PreviewApp) (b : Box)
      → ((a : PreviewApp) → existing ≡ ok a → In a b.apps × (a.is_preview ≡ true))
      → P b
      → P (ensure_from cfg id d now branch parent existing b).0
  ensure_from-keeps id d now branch (err e) existing b at p = p
  ensure_from-keeps id d now branch (ok parent) (ok preview) b at p =
      enqueue-keeps d now preview.id _
        (touched now preview b (at preview refl).0 (at preview refl).1 p)
  ensure_from-keeps id d now branch (ok parent) (err not_found) b at p =
      create_capped-keeps id d now parent branch b p
  ensure_from-keeps id d now branch (ok parent) (err active_deployment_exists) b at p = p
  ensure_from-keeps id d now branch (ok parent) (err Error.rollback_source_invalid) b at p = p
  ensure_from-keeps id d now branch (ok parent) (err Error.foreign_key) b at p = p
  ensure_from-keeps id d now branch (ok parent) (err Error.unique_violation) b at p = p

  preview-In :
      (parent : ℕ) (branch : Text) (b : Box) (a : PreviewApp)
      → get_preview_by_parent_and_branch parent branch b ≡ ok a
      → In a b.apps × (a.is_preview ≡ true)
  unfolding get_preview_by_parent_and_branch
  preview-In parent branch b a h =
      let at = first_app-In (is_preview_of parent branch) b.apps a (found-some _ a h) in
      (at.0, (&&-eq-true a.is_preview _ at.1).0)

  ensure-keeps :
      (id d now parent : ℕ) (branch : Text) (b : Box)
      → P b
      → P (ensure_preview cfg id d now parent branch b).0
  unfolding ensure_preview
  ensure-keeps id d now parent branch b p =
      ensure_from-keeps id d now branch (get_app parent b)
        (get_preview_by_parent_and_branch parent branch b) b (preview-In parent branch b) p

  notified-keeps : (b : Box) → P b → P (notified cfg b)
  notified-keeps b p = elim (Bool-cases cfg.has_canceller) [
    | inl y ↦ rw y (quiet b _ refl refl p)
    | inr n ↦ rw n p
  ]

  interrupted-keeps : (id : ℕ) (b : Box) → P b → P (interrupted cfg id b)
  interrupted-keeps id b p = elim (Bool-cases cfg.has_canceller) [
    | inl y ↦ rw y (quiet b _ refl refl p)
    | inr n ↦ rw n p
  ]

  downed-keeps :
      (wired : Bool) (a : PreviewApp) (b : Box)
      → In a b.apps
      → a.is_preview ≡ true
      → P b
      → P (logged wired (compose_down a.slug) b)
  downed-keeps true a b i pre p = downed a b i pre p
  downed-keeps false a b i pre p = p

  reaped-keeps :
      (a : PreviewApp) (b : Box) (gone : Result Box)
      → In a b.apps
      → a.is_preview ≡ true
      → delete_app a.id b ≡ gone
      → P b
      → P (reaped cfg b gone).0
  reaped-keeps a b (err e) i pre h p = p
  reaped-keeps a b (ok b') i pre h p =
      notified-keeps _
        (logged-keeps cfg.has_router route_reconcile b' tt (deleted a b b' i pre h p))

  taken_down-apps : (a : PreviewApp) (b : Box) → (taken_down cfg a b).apps ≡ b.apps
  taken_down-apps a b =
      logged-apps cfg.has_router (route_teardown a.id) _
      ∙ (logged-apps cfg.has_controller (compose_down a.slug) _ ∙ interrupted-apps cfg a.id b)

  tear_down-keeps : (a : PreviewApp) (b : Box) → In a b.apps → P b → P (tear_down cfg a b).0
  tear_down-keeps a b i p = elim (Bool-cases a.is_preview) [
    | inr n ↦ rw n p
    | inl pre ↦
        let stopped = interrupted-keeps a.id b p in
        let down =
          downed-keeps cfg.has_controller a (interrupted cfg a.id b)
            (subst (In a) (sym (interrupted-apps cfg a.id b)) i) pre stopped in
        let off = logged-keeps cfg.has_router (route_teardown a.id) _ tt down in
        rw pre (
          reaped-keeps a (taken_down cfg a b) (delete_app a.id (taken_down cfg a b))
            (subst (In a) (sym (taken_down-apps a b)) i) pre refl off)
  ]

  teardown_from-keeps :
      (known : Result PreviewApp) (b : Box)
      → ((a : PreviewApp) → known ≡ ok a → In a b.apps)
      → P b
      → P (teardown_from cfg known b).0
  teardown_from-keeps (err e) b at p = p
  teardown_from-keeps (ok a) b at p = tear_down-keeps a b (at a refl) p

  teardown-keeps : (id : ℕ) (b : Box) → P b → P (teardown cfg id b).0
  unfolding teardown get_app
  teardown-keeps id b p =
      teardown_from-keeps (get_app id b) b
        (λ a h. (first_app-In (has_app_id id) b.apps a (found-some _ a h)).0) p

  teardown_found-keeps :
      (known : Result PreviewApp) (b : Box) → P b → P (teardown_found cfg known b).0
  teardown_found-keeps (err e) b p = p
  teardown_found-keeps (ok a) b p = teardown-keeps a.id b p

  teardown_each-keeps : (xs : List PreviewApp) (b : Box) → P b → P (teardown_each cfg xs b)
  teardown_each-keeps [] b p = p
  teardown_each-keeps (x ∷ xs) b p = teardown_each-keeps xs _ (teardown-keeps x.id b p)

  operation-keeps : (o : Operation) (b : Box) → P b → P (run_operation cfg o b)
  unfolding teardown_by_branch sweep_once
  operation-keeps (ensure id d now parent branch) b p = ensure-keeps id d now parent branch b p
  operation-keeps (remove id) b p = teardown-keeps id b p
  operation-keeps (branch_deleted parent branch) b p =
      teardown_found-keeps (get_preview_by_parent_and_branch parent branch b) b p
  operation-keeps (tick now) b p = elim (Bool-cases (cfg.ttl == 0)) [
    | inl y ↦ rw y p
    | inr n ↦ rw n (teardown_each-keeps (list_expired_previews now cfg.ttl b) b p)
  ]

  pub run-keeps : (os : List Operation) (b : Box) → P b → P (run_operations cfg os b)
  unfolding run_operations
  run-keeps [] b p = p
  run-keeps (o ∷ os) b p = run-keeps os _ (operation-keeps o b p)
