-- ===== src/Deploy/Schema.antt =====
-- The tables behind api/internal/store/deployments.go (migrations 00007, 00020, 00062, 00076 of
-- api/internal/db/migrations) and what a statement does to them. A UUID is its number, a timestamp
-- the number of its instant. The primary key, the partial unique index one_active_deploy_per_app
-- and the foreign keys are checks of the statements; a broken connection is not modelled.
pub mod Laws
pub mod Success
use vac.Prelude.{
  ℕ, ◌+◌, Bool, true, false, not, ◌&&◌, ◌||◌, List, [], ◌∷◌, String, Option, none, some, any, count,
  keep, ltb, leb, ◌==◌, if◌then◌else◌, map,
}
use vac.Deploy.Status.{
  DeploymentStatus, queued, cloning, building, deploying, health_checking, running, scheduled,
  pending_approval,
}

pub record Deployment : Type 0 where
  pub id : ℕ
  pub app_id : ℕ
  pub status : DeploymentStatus
  pub triggered_at : ℕ
  pub triggered_by : String
  pub rolled_back_from : Option ℕ
  pub started_at : Option ℕ
  pub finished_at : Option ℕ
  pub compose_hash : Option String
  pub commit_sha : Option String
  pub commit_message : Option String
  pub error : Option String

-- The columns of apps that these statements read; `deploy_window` is the raw JSONB value.
pub record App : Type 0 where
  pub id : ℕ
  pub deploy_window : List ℕ

pub record Db : Type 0 where
  pub apps : List App
  pub rows : List Deployment

-- The named errors of the package, and the two constraint errors that pgx hands on.
pub data Error : Type 0 where
  not_found active_deployment_exists rollback_source_invalid foreign_key unique_violation : Error

pub data Result {ℓ} (A : Type ℓ) : Type ℓ where
  ok : A → Result A
  err : Error → Result A

infixl 5 ◌>>=◌
abbrev pub ◌>>=◌ {ℓ κ} : {A : Type ℓ} {B : Type κ} → Result A → (A → Result B) → Result B
ok a >>= k = k a
err e >>= k = err e

-- The predicate of the partial unique index (migration 00076): the rows that occupy an app's lane.
unfoldable pub holds_lane : DeploymentStatus → Bool
holds_lane queued = true
holds_lane cloning = true
holds_lane building = true
holds_lane deploying = true
holds_lane health_checking = true
holds_lane scheduled = true
holds_lane pending_approval = true
holds_lane _ = false

-- The status list of the statements: 'queued','cloning','building','deploying','health-checking'.
unfoldable pub in_flight : DeploymentStatus → Bool
in_flight queued = true
in_flight cloning = true
in_flight building = true
in_flight deploying = true
in_flight health_checking = true
in_flight _ = false

abbrev pub is_queued : DeploymentStatus → Bool
is_queued queued = true
is_queued _ = false

abbrev pub is_scheduled : DeploymentStatus → Bool
is_scheduled scheduled = true
is_scheduled _ = false

abbrev pub is_pending : DeploymentStatus → Bool
is_pending pending_approval = true
is_pending _ = false

abbrev pub is_running : DeploymentStatus → Bool
is_running running = true
is_running _ = false

abbrev pub has_id : ℕ → Deployment → Bool
has_id id d = d.id == id

abbrev pub occupies : ℕ → Deployment → Bool
occupies app_id d = d.app_id == app_id && holds_lane d.status

-- Whether the app's lane is taken: whether the index has an entry for it.
abbrev pub lane_taken : ℕ → List Deployment → Bool
lane_taken app_id rows = any (occupies app_id) rows

-- The index admits no second entry for an app.
abbrev pub lanes_unique : List Deployment → Bool
lanes_unique [] = true
lanes_unique (d ∷ ds) = not (holds_lane d.status && lane_taken d.app_id ds) && lanes_unique ds

abbrev pub source_exists : Option ℕ → List Deployment → Bool
source_exists none rows = true
source_exists (some source) rows = any (has_id source) rows

abbrev pub has_app : ℕ → Db → Bool
has_app app_id db = any (λ a. a.id == app_id) db.apps

-- INSERT of one row. The unique indexes are checked as the row goes in, the foreign keys behind it.
unfoldable pub insert_row : Deployment → Db → Result Db
insert_row d db =
    if any (has_id d.id) db.rows || (holds_lane d.status && lane_taken d.app_id db.rows)
    then err unique_violation
    else if has_app d.app_id db && source_exists d.rolled_back_from db.rows
    then ok (record db { rows = d ∷ db.rows })
    else err foreign_key

-- UPDATE … SET f WHERE p: the rows after it.
abbrev pub update_rows :
    (Deployment → Bool) → (Deployment → Deployment) → List Deployment → List Deployment
update_rows p f [] = []
update_rows p f (d ∷ ds) = (if p d then f d else d) ∷ update_rows p f ds

-- The statement, with RowsAffected; the index refuses a result with two entries for an app.
unfoldable pub exec : (Deployment → Bool) → (Deployment → Deployment) → Db → Result (ℕ × Db)
exec p f db =
    let rows = update_rows p f db.rows in
    if lanes_unique rows
    then ok (count p db.rows, record db { rows = rows })
    else err unique_violation

-- Exec, where no affected row is ErrNotFound.
unfoldable pub exec_found : (Deployment → Bool) → (Deployment → Deployment) → Db → Result Db
exec_found p f db = exec p f db >>= λ r. if r.0 == 0 then err not_found else ok r.1

-- Exec, where the count is not looked at.
unfoldable pub exec_any : (Deployment → Bool) → (Deployment → Deployment) → Db → Result Db
exec_any p f db = exec p f db >>= λ r. ok r.1

abbrev pub first : (Deployment → Bool) → List Deployment → Option Deployment
first p [] = none
first p (d ∷ ds) = if p d then some d else first p ds

-- UPDATE … RETURNING, of one row: pgx.ErrNoRows is ErrNotFound.
unfoldable pub exec_returning :
    (Deployment → Bool) → (Deployment → Deployment) → Db → Result (Deployment × Db)
exec_returning p f db = elim (first p db.rows) [
  | none ↦ err not_found
  | some d ↦ exec p f db >>= λ r. ok (f d, r.1)
]

-- COALESCE of two columns.
abbrev pub coalesce {ℓ} : {A : Type ℓ} → Option A → Option A → Option A
coalesce none y = y
coalesce (some x) y = some x
