-- ===== src/Preview/Full.antt =====
-- A push to a branch that has a preview, while the queue of the worker is full.
use vac.Prelude.{
  Bool, Option, ℕ, Text, if◌then◌else◌, none, ◌≡◌, some, ◌==◌, Bool-cases, List, ap, true, map, ◌∙◌,
  inl, false, inr, ◌∷◌, refl, [], arith, subst, any, sym, ◌&&◌, any_intro,
}
use vac.Deploy.Schema.{Db, Deployment, Result, ok, in_flight, insert_row}
use vac.Deploy.Schema.Success.{insert_row_ok}
use vac.Deploy.Table.{create_deployment, has_active_deployment, fresh, or_manual, insert_returning}
use vac.Deploy.Status.{queued}
use vac.Deploy.Worker.{enqueue}
use vac.Preview.Service.{
  Settings, done, queue_full, ensure_preview, ensure_from, enqueue_preview, handed, offered,
}
use vac.Preview.{
  at_push, PreviewApp, Box, found, first_app, get_app, get_preview_by_parent_and_branch,
  touch_preview_push, has_app_id, is_preview_of,
}

at_push-id : (now id : ℕ) (a : PreviewApp) → (at_push now id a).id ≡ a.id
at_push-id now id a = elim (Bool-cases (a.id == id)) [ inl y ↦ rw y refl | inr n ↦ rw n refl ]

-- A push time decides no lookup.
at_push-has_app_id :
    (now id k : ℕ) (a : PreviewApp) → has_app_id k (at_push now id a) ≡ has_app_id k a
at_push-has_app_id now id k a = elim (Bool-cases (a.id == id)) [
  | inl y ↦ rw y refl
  | inr n ↦ rw n refl
]

at_push-is_preview_of :
    (now id parent : ℕ) (branch : Text) (a : PreviewApp)
    → is_preview_of parent branch (at_push now id a) ≡ is_preview_of parent branch a
at_push-is_preview_of now id parent branch a = elim (Bool-cases (a.id == id)) [
  | inl y ↦ rw y refl
  | inr n ↦ rw n refl
]

mapped : {A B : Type 0} → (A → B) → Option A → Option B
mapped f none = none
mapped f (some a) = some (f a)

picked :
    (f : PreviewApp → PreviewApp) (here : Bool) (x : PreviewApp) (r s : Option PreviewApp)
    → r ≡ mapped f s
    → (if here then some (f x) else r) ≡ mapped f (if here then some x else s)
unfolding mapped
picked f true x r s h = refl
picked f false x r s h = h

first_app-map :
    (q : PreviewApp → Bool) (f : PreviewApp → PreviewApp)
    → ((a : PreviewApp) → q (f a) ≡ q a)
    → (xs : List PreviewApp) → first_app q (map f xs) ≡ mapped f (first_app q xs)
unfolding mapped
first_app-map q f same [] = refl
first_app-map q f same (x ∷ xs) = rw (same x) (picked f (q x) x _ _ (first_app-map q f same xs))

found-mapped :
    (f : PreviewApp → PreviewApp) (o : Option PreviewApp) (a : PreviewApp)
    → found o ≡ ok a
    → found (mapped f o) ≡ ok (f a)
unfolding mapped
found-mapped f none a h = absurd cc
found-mapped f (some x) a h = cc

get_app-touch :
    (now id k : ℕ) (b : Box) (a : PreviewApp)
    → get_app k b ≡ ok a
    → get_app k (touch_preview_push now id b) ≡ ok (at_push now id a)
unfolding get_app touch_preview_push
get_app-touch now id k b a h =
    ap found (first_app-map (has_app_id k) (at_push now id) (at_push-has_app_id now id k) b.apps)
    ∙ found-mapped (at_push now id) (first_app (has_app_id k) b.apps) a h

get_preview-touch :
    (now id parent : ℕ) (branch : Text) (b : Box) (a : PreviewApp)
    → get_preview_by_parent_and_branch parent branch b ≡ ok a
    → get_preview_by_parent_and_branch parent branch (touch_preview_push now id b)
      ≡ ok (at_push now id a)
unfolding get_preview_by_parent_and_branch touch_preview_push
get_preview-touch now id parent branch b a h =
    ap found (
      first_app-map (is_preview_of parent branch) (at_push now id)
        (at_push-is_preview_of now id parent branch) b.apps)
    ∙ found-mapped (at_push now id) (first_app (is_preview_of parent branch) b.apps) a h

-- What an INSERT that succeeds returns.
returned :
    (d : Deployment) (db : Db) (made : Deployment × Db)
    → insert_returning d db ≡ ok made
    → (made.0 ≡ d) × (insert_row d db ≡ ok made.1)
returned d db made h = (ground arith, ground arith)

-- The row of a preview's new deployment is in flight.
created-active :
    (d now app : ℕ) (db : Db) (made : Deployment × Db)
    → create_deployment d now app "preview" none db ≡ ok made
    → (made.0.id ≡ d) × (has_active_deployment app made.1 ≡ true)
unfolding create_deployment has_active_deployment in_flight
created-active d now app db made h =
    let r = returned (fresh d app now queued (or_manual "preview") none) db made h in
    let rows = (insert_row_ok _ db r.1).0 in
    (
      ap (λ x. x.id) r.0,
      subst (λ rs. any (λ x. x.app_id == app && in_flight x.status) rs ≡ true) (sym rows)
          (any_intro (λ x. x.app_id == app && in_flight x.status)
            (fresh d app now queued (or_manual "preview") none ∷ db.rows) (inl refl)
            (ground arith)),
    )

handed-full :
    (b : Box) (d : ℕ) (made : Deployment × Db) (answer : Result (Deployment × Db))
    → answer ≡ ok made
    → made.0.id ≡ d
    → enqueue d b.worker ≡ none
    → handed answer b ≡ (record b { db = made.1 }, queue_full)
handed-full b d made answer h same full =
    ap (λ r. handed r b) h ∙ ap (λ w. offered made.1 w b) (ap (λ i. enqueue i b.worker) same ∙ full)

enqueue-full :
    (d now id : ℕ) (b : Box) (made : Deployment × Db)
    → has_active_deployment id b.db ≡ false
    → create_deployment d now id "preview" none b.db ≡ ok made
    → enqueue d b.worker ≡ none
    → enqueue_preview d now id b ≡ (record b { db = made.1 }, queue_full)
unfolding enqueue_preview
enqueue-full d now id b made free h full =
    rw free (handed-full b d made _ h (created-active d now id b.db made h).0 full)

enqueue-coalesces :
    (d now id : ℕ) (b : Box)
    → has_active_deployment id b.db ≡ true
    → enqueue_preview d now id b ≡ (b, done)
unfolding enqueue_preview
enqueue-coalesces d now id b busy = rw busy refl

ensure-existing :
    (cfg : Settings) (id d now parent_id : ℕ) (branch : Text) (b : Box)
    (parent preview : PreviewApp)
    → get_app parent_id b ≡ ok parent
    → get_preview_by_parent_and_branch parent_id branch b ≡ ok preview
    → ensure_preview cfg id d now parent_id branch b
      ≡ enqueue_preview d now preview.id (touch_preview_push now preview.id b)
unfolding ensure_preview
ensure-existing cfg id d now parent_id branch b parent preview up at =
    ap
      (λ r.
        ensure_from cfg id d now branch r (get_preview_by_parent_and_branch parent_id branch b) b)
      up
    ∙ ap (λ r. ensure_from cfg id d now branch (ok parent) r b) at

-- The box with the push time set and these deployments.
abbrev pub queued_only : (now id : ℕ) → Db → Box → Box
queued_only now id db b = record (touch_preview_push now id b) { db = db }

-- The preview of the branch, none of its deployments in flight, and no room in the queue: EnsurePreview
-- creates the deployment and then fails. The row stays queued, no worker has it, and the next push to the
-- branch takes it for a build: it succeeds and leaves the deployments and the worker as they are.
pub ensure-strands :
    (cfg : Settings) (id d now parent_id : ℕ) (branch : Text) (b : Box)
    (parent preview : PreviewApp) (made : Deployment × Db)
    → get_app parent_id b ≡ ok parent
    → get_preview_by_parent_and_branch parent_id branch b ≡ ok preview
    → has_active_deployment preview.id b.db ≡ false
    → create_deployment d now preview.id "preview" none b.db ≡ ok made
    → enqueue d b.worker ≡ none
    → (ensure_preview cfg id d now parent_id branch b
        ≡ (queued_only now preview.id made.1 b, queue_full))
      × ((id' d' now' : ℕ)
          → ensure_preview cfg id' d' now' parent_id branch (queued_only now preview.id made.1 b)
            ≡ (touch_preview_push now' preview.id (queued_only now preview.id made.1 b), done))
unfolding touch_preview_push get_app get_preview_by_parent_and_branch
ensure-strands cfg id d now parent_id branch b parent preview made up at free h full = (
  ensure-existing cfg id d now parent_id branch b parent preview up at
      ∙ enqueue-full d now preview.id (touch_preview_push now preview.id b) made free h full,
  λ id' d' now'.
      ensure-existing cfg id' d' now' parent_id branch (queued_only now preview.id made.1 b)
        (at_push now preview.id parent) (at_push now preview.id preview)
        (get_app-touch now preview.id parent_id b parent up)
        (get_preview-touch now preview.id parent_id branch b preview at)
      ∙ subst
          (λ i.
            enqueue_preview d' now' i
              (touch_preview_push now' i (queued_only now preview.id made.1 b))
            ≡ (touch_preview_push now' preview.id (queued_only now preview.id made.1 b), done))
          (sym (at_push-id now preview.id preview))
          (enqueue-coalesces d' now' preview.id _ (created-active d now preview.id b.db made h).1),
)
