-- ===== src/Preview.antt =====
-- api/internal/store/previews.go with DeleteApp of apps.go: the statements behind the preview environments, on
-- the columns of apps that they use. A deployment of a preview is a row of Deploy/Schema.antt. What the
-- service asks of Docker, the router and the notifier is a list of calls.
pub mod Slug
pub mod Service
pub mod Calm
pub mod Valid
pub mod Runs
pub mod Spared
pub mod Cap
pub mod Full
mod Tests
use vac.Deploy.Schema.{Db, Result, ok, err, Error, not_found}
use vac.Deploy.Worker.{Worker}
use vac.Prelude.{
  Text, ℕ, Bool, List, Option, ◌∷◌, [], ◌++◌, ◌&&◌, ◌||◌, ◌+◌, if◌then◌else◌, none, some, map, keep,
  any, count, length, suc, zero, ltb, not, texts_eq, ◌==◌, true, false,
}

pub record PreviewApp : Type 0 where
  pub id : ℕ
  pub slug : Text
  pub git_branch : Text
  pub parent_app_id : Option ℕ
  pub is_preview : Bool
  pub last_preview_push_at : Option ℕ

pub record EnvVar : Type 0 where
  pub app_id : ℕ
  pub key : Text
  pub value : Text
  pub sensitive : Bool
  pub write_only : Bool

pub data Call : Type 0 where
  compose_down : (slug : Text) → Call
  route_teardown : (app_id : ℕ) → Call
  route_reconcile : Call
  cap_reached : (parent : ℕ) → (branch : Text) → Call

pub record Box : Type 0 where
  pub apps : List PreviewApp
  pub env : List EnvVar
  pub db : Db
  pub worker : Worker
  pub calls : List Call

abbrev pub has_app_id : ℕ → PreviewApp → Bool
has_app_id id a = a.id == id

abbrev pub first_app : (PreviewApp → Bool) → List PreviewApp → Option PreviewApp
first_app p [] = none
first_app p (a ∷ xs) = let rest = first_app p xs in if p a then some a else rest

abbrev pub found : Option PreviewApp → Result PreviewApp
found none = err not_found
found (some a) = ok a

unfoldable pub get_app : ℕ → Box → Result PreviewApp
get_app id b = found (first_app (has_app_id id) b.apps)

abbrev pub is_parent : ℕ → Option ℕ → Bool
is_parent id none = false
is_parent id (some parent) = parent == id

abbrev pub is_preview_of : (parent_id : ℕ) → (branch : Text) → PreviewApp → Bool
is_preview_of parent_id branch a =
    a.is_preview && (is_parent parent_id a.parent_app_id && texts_eq a.git_branch branch)

unfoldable pub get_preview_by_parent_and_branch : ℕ → Text → Box → Result PreviewApp
get_preview_by_parent_and_branch parent_id branch b =
    found (first_app (is_preview_of parent_id branch) b.apps)

unfoldable pub count_previews : Box → ℕ
count_previews b = count (λ a. a.is_preview) b.apps

abbrev pub is_older : (now ttl : ℕ) → Option ℕ → Bool
is_older now ttl none = false
is_older now ttl (some t) = ltb (t + ttl) now

-- The previews whose last push is more than the TTL ago. The ORDER BY is that of the rows.
unfoldable pub list_expired_previews : (now ttl : ℕ) → Box → List PreviewApp
list_expired_previews now ttl b =
    keep (λ a. a.is_preview && is_older now ttl a.last_preview_push_at) b.apps

abbrev pub at_push : (now id : ℕ) → PreviewApp → PreviewApp
at_push now id a = if a.id == id then record a { last_preview_push_at = some now } else a

unfoldable pub touch_preview_push : (now id : ℕ) → Box → Box
touch_preview_push now id b = record b { apps = map (at_push now id) b.apps }

abbrev pub copied_env : (from onto : ℕ) → List EnvVar → List EnvVar
copied_env from onto vars =
    map {A = EnvVar} (λ v. record v { app_id = onto })
      (keep (λ v. v.app_id == from && not v.sensitive) vars)

abbrev pub fresh_preview : (id now : ℕ) → (parent : PreviewApp) → (slug branch : Text) → PreviewApp
fresh_preview id now parent slug branch = record {
  id = id;
  slug = slug;
  git_branch = branch;
  parent_app_id = some parent.id;
  is_preview = true;
  last_preview_push_at = some now;
}

abbrev pub is_taken : ℕ → Text → List PreviewApp → Bool
is_taken id slug apps = any (λ a. a.id == id || texts_eq a.slug slug) apps

-- The transaction: `none` is ErrConflict, of the slug or, which the source does not expect, the id.
unfoldable pub create_preview_app :
    (id now : ℕ) → (parent : PreviewApp) → (slug branch : Text) → Box → Option (PreviewApp × Box)
create_preview_app id now parent slug branch b =
    let app = fresh_preview id now parent slug branch in
    if is_taken id slug b.apps
    then none
    else some (
      app,
      record b {
        apps = app ∷ b.apps;
        env = copied_env parent.id id b.env ++ b.env;
        db = record b.db { apps = (record { id = id; deploy_window = [] }) ∷ b.db.apps };
      },
    )

-- ON DELETE CASCADE of apps.parent_app_id: an app goes with the app `root` when one of its ancestors is
-- that app. No app has more ancestors than there are rows, which is the fuel.
abbrev pub parent_of : ℕ → List PreviewApp → Option ℕ
parent_of id [] = none
parent_of id (a ∷ rest) =
    let later = parent_of id rest in if a.id == id then a.parent_app_id else later

abbrev pub is_under : (fuel : ℕ) → List PreviewApp → (root : ℕ) → Option ℕ → Bool
is_under fuel apps root none = false
is_under zero apps root (some parent) = false
is_under (suc fuel) apps root (some parent) =
    parent == root || is_under fuel apps root (parent_of parent apps)

abbrev pub goes_with : (root : ℕ) → List PreviewApp → PreviewApp → Bool
goes_with root apps a = a.id == root || is_under (length apps) apps root a.parent_app_id

-- DELETE FROM apps: the app, the apps below it, and the env vars, the deployments and the row of each.
unfoldable pub delete_app : ℕ → Box → Result Box
delete_app id b =
    let gone = keep (goes_with id b.apps) b.apps in
    if any (has_app_id id) b.apps
    then ok (record b {
      apps = keep (λ a. not (goes_with id b.apps a)) b.apps;
      env = keep (λ v. not (any (has_app_id v.app_id) gone)) b.env;
      db = record {
        apps = keep (λ a. not (any (has_app_id a.id) gone)) b.db.apps;
        rows = keep (λ d. not (any (has_app_id d.app_id) gone)) b.db.rows;
      };
    })
    else err not_found
