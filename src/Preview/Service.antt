-- ===== src/Preview/Service.antt =====
-- api/internal/preview/preview.go: the lifecycle of a preview. The canceller, the compose controller, the
-- router and the notifier may each be nil; what Docker and the router answer changes nothing. `id` is the
-- UUID that the database draws for an app, `deployment_id` that for a deployment.
use vac.Preview.{
  PreviewApp, Box, Call, compose_down, route_teardown, route_reconcile, cap_reached, get_app,
  get_preview_by_parent_and_branch, count_previews, list_expired_previews, touch_preview_push,
  create_preview_app, delete_app,
}
use vac.Preview.Slug.{derive_slug}
use vac.Deploy.Schema.{Db, Result, ok, err, Error, Deployment, not_found, active_deployment_exists}
use vac.Deploy.Table.{create_deployment, has_active_deployment, active_deployment_ids_for_app}
use vac.Deploy.Worker.{Worker, enqueue, cancel, notify_changed}
use vac.Compose.Preflight.{is_empty}
use vac.Prelude.{Text, ℕ, Bool, List, Option, ◌∷◌, [], if◌then◌else◌, none, some, leb, ◌==◌}

pub record Settings : Type 0 where
  pub max_previews : ℕ
  pub ttl : ℕ
  pub has_canceller : Bool
  pub has_controller : Bool
  pub has_router : Bool
  pub has_notifier : Bool

-- The error of a method.
pub data Outcome : Type 0 where
  done : Outcome
  cap : Outcome
  no_slug : Outcome
  not_preview : Outcome
  queue_full : Outcome
  store_error : Error → Outcome

abbrev pub logged : Bool → Call → Box → Box
logged wired call b = if wired then record b { calls = call ∷ b.calls } else b

-- Enqueue of a row that was just created.
abbrev pub offered : Db → Option Worker → Box → Box × Outcome
offered db none b = (record b { db = db }, queue_full)
offered db (some w) b = (record b { db = db; worker = w }, done)

-- Behind the INSERT of a deployment.
abbrev pub handed : Result (Deployment × Db) → Box → Box × Outcome
handed (ok (d, db)) b = offered db (enqueue d.id b.worker) b
handed (err active_deployment_exists) b = (b, done)
handed (err e) b = (b, store_error e)

unfoldable pub enqueue_preview : (deployment_id now preview_id : ℕ) → Box → Box × Outcome
enqueue_preview deployment_id now preview_id b =
    if has_active_deployment preview_id b.db
    then (b, done)
    else handed (create_deployment deployment_id now preview_id "preview" none b.db) b

abbrev pub deployed_new : (deployment_id now : ℕ) → Option (PreviewApp × Box) → Box → Box × Outcome
deployed_new deployment_id now none b = (b, no_slug)
deployed_new deployment_id now (some (app, b')) b = enqueue_preview deployment_id now app.id b'

abbrev pub create_with :
    (id deployment_id now : ℕ) → (parent : PreviewApp) → (slug branch : Text) → Box → Box × Outcome
create_with id deployment_id now parent slug branch b =
    if is_empty slug
    then (b, no_slug)
    else deployed_new deployment_id now (create_preview_app id now parent slug branch b) b

-- A new preview, under the cap. A limit of zero stands for one that is not positive.
abbrev pub create_capped :
    Settings
    → (id deployment_id now : ℕ) → (parent : PreviewApp) → (branch : Text) → Box
    → Box × Outcome
create_capped cfg id deployment_id now parent branch b =
    if cfg.max_previews == 0
    then (b, cap)
    else if leb cfg.max_previews (count_previews b)
    then (logged cfg.has_notifier (cap_reached parent.id branch) b, cap)
    else create_with id deployment_id now parent (derive_slug parent.slug branch) branch b

abbrev pub ensure_from :
    Settings
    → (id deployment_id now : ℕ) → (branch : Text) → (parent existing : Result PreviewApp) → Box
    → Box × Outcome
ensure_from cfg id deployment_id now branch (err e) existing b = (b, store_error e)
ensure_from cfg id deployment_id now branch (ok parent) (ok preview) b =
    enqueue_preview deployment_id now preview.id (touch_preview_push now preview.id b)
ensure_from cfg id deployment_id now branch (ok parent) (err not_found) b =
    create_capped cfg id deployment_id now parent branch b
ensure_from cfg id deployment_id now branch (ok parent) (err e) b = (b, store_error e)

unfoldable pub ensure_preview :
    Settings → (id deployment_id now parent_id : ℕ) → (branch : Text) → Box → Box × Outcome
unfolding enqueue_preview
ensure_preview cfg id deployment_id now parent_id branch b =
    ensure_from cfg id deployment_id now branch (get_app parent_id b)
      (get_preview_by_parent_and_branch parent_id branch b) b

abbrev pub cancel_each : List ℕ → Worker → Worker
cancel_each [] w = w
cancel_each (id ∷ ids) w = cancel_each ids (cancel id w).0

abbrev pub interrupted : Settings → (preview_id : ℕ) → Box → Box
interrupted cfg preview_id b =
    if cfg.has_canceller
    then record b { worker = cancel_each (active_deployment_ids_for_app preview_id b.db) b.worker }
    else b

abbrev pub notified : Settings → Box → Box
notified cfg b = if cfg.has_canceller then record b { worker = notify_changed b.worker } else b

-- Behind the DELETE of the app's row.
abbrev pub reaped : Settings → Box → Result Box → Box × Outcome
reaped cfg b (err e) = (b, store_error e)
reaped cfg b (ok b') = (notified cfg (logged cfg.has_router route_reconcile b'), done)

abbrev pub taken_down : Settings → PreviewApp → Box → Box
taken_down cfg app b =
    logged cfg.has_router (route_teardown app.id)
      (logged cfg.has_controller (compose_down app.slug) (interrupted cfg app.id b))

abbrev pub tear_down : Settings → PreviewApp → Box → Box × Outcome
tear_down cfg app b =
    if app.is_preview
    then reaped cfg (taken_down cfg app b) (delete_app app.id (taken_down cfg app b))
    else (b, not_preview)

abbrev pub teardown_from : Settings → Result PreviewApp → Box → Box × Outcome
teardown_from cfg (err e) b = (b, store_error e)
teardown_from cfg (ok app) b = tear_down cfg app b

unfoldable pub teardown : Settings → (preview_id : ℕ) → Box → Box × Outcome
teardown cfg preview_id b = teardown_from cfg (get_app preview_id b) b

abbrev pub teardown_found : Settings → Result PreviewApp → Box → Box × Outcome
teardown_found cfg (err e) b = (b, store_error e)
teardown_found cfg (ok preview) b = teardown cfg preview.id b

unfoldable pub teardown_by_branch :
    Settings → (parent_id : ℕ) → (branch : Text) → Box → Box × Outcome
unfolding teardown
teardown_by_branch cfg parent_id branch b =
    teardown_found cfg (get_preview_by_parent_and_branch parent_id branch b) b

abbrev pub teardown_each : Settings → List PreviewApp → Box → Box
teardown_each cfg [] b = b
teardown_each cfg (p ∷ ps) b = teardown_each cfg ps (teardown cfg p.id b).0

-- One tick of RunExpirer, which does not run without a TTL.
unfoldable pub sweep_once : Settings → (now : ℕ) → Box → Box
unfolding teardown
sweep_once cfg now b =
    if cfg.ttl == 0 then b else teardown_each cfg (list_expired_previews now cfg.ttl b) b
