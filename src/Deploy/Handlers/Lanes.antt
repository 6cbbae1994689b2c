-- ===== src/Deploy/Handlers/Lanes.antt =====
-- What the handlers leave behind in an app's deploy lane when the worker's queue is full.
use vac.Deploy.Table.Create.{insert_takes, insert_taken}
use vac.Deploy.Worker.{enqueue}
use vac.Deploy.Handlers.{trigger_deployment, Control, webhook_deploy}
use vac.Deploy.Schema.Laws.{KeepsLanes, exec_any_ok, lane_taken-update}
use vac.Deploy.Schema.Success.{insert_row_ok, Result-cases}
use vac.Deploy.Status.{queued, DeploymentStatus}
use vac.Prelude.{
  ℕ, String, ◌≡◌, true, false, Bool, ◌&&◌, some, arith, refl, Bool-cases, inr, inl, none,
  Option-cases, ◌∙◌,
}
use vac.Deploy.Schema.{
  holds_lane, Deployment, Db, lanes_unique, insert_row, ok, lane_taken, has_id, is_queued,
  update_rows, has_app,
}
use vac.Deploy.Table.{
  fail_queued_deployment, create_deployment, fresh, or_manual, create_deployment_with_status,
}

-- FailQueuedDeployment on a row that was just inserted.
failed_fresh :
    (now : ℕ) (reason : String) (row : Deployment) (db db' : Db)
    → lanes_unique db.rows ≡ true
    → row.status ≡ queued
    → insert_row row db ≡ ok db'
    → (db'' : Db) × (fail_queued_deployment now row.id reason db' ≡ ok db'')
      × (lane_taken row.app_id db''.rows ≡ false)
unfolding fail_queued_deployment holds_lane
failed_fresh now reason row db db' u q h =
    let (rows, new_id, free) = insert_row_ok row db h in
    let lane : holds_lane row.status ≡ true = rw q refl in
    let keeps : KeepsLanes p f = λ d k. (refl, λ l. absurd (ground arith)) in
    let unique : lanes_unique db'.rows ≡ true = rw rows (rw (free lane) (rw lane u)) in
    (
      record db' { rows = update_rows p f db'.rows },
      exec_any_ok p f keeps db' unique,
      rw rows (ground (arith, lane_taken-update p f keeps row.app_id db.rows (free lane))),
    )
  where
    p : Deployment → Bool
    p d = has_id row.id d && is_queued d.status

    f : Deployment → Deployment
    f d = record d { status = DeploymentStatus.error; error = some reason; finished_at = some now }

abbrev manual_row : (id now app_id : ℕ) → Deployment
manual_row id now app_id = fresh id app_id now queued (or_manual "manual") none

-- A manual deploy that is answered with 503 leaves the app free to deploy again: where no app has
-- two rows in its lane, the row that the handler created is settled, so that no row of the app
-- occupies its lane.
pub trigger_deployment-503_frees :
    (id now app_id : ℕ) (c : Control)
    → lanes_unique c.db.rows ≡ true
    → (trigger_deployment id now app_id c).1.code ≡ 503
    → lane_taken app_id (trigger_deployment id now app_id c).0.db.rows ≡ false
unfolding trigger_deployment create_deployment
trigger_deployment-503_frees id now app_id c u h = elim (Bool-cases (has_app app_id c.db)) [
  | inr missing ↦ absurd (ground arith)
  | inl known ↦ elim (Result-cases (insert_row (manual_row id now app_id) c.db)) [
    | inr (e, failed) ↦ absurd (ground arith)
    | inl (db', made) ↦ elim (Option-cases (enqueue id c.worker)) [
      | inr (w, room) ↦ absurd (ground arith)
      | inl full ↦
          let (db'', settled, free) =
            failed_fresh now "deploy queue full at enqueue" (manual_row id now app_id) c.db db' u
              refl made in
          ground arith
    ]
  ]
]

abbrev push_row : (id now app_id : ℕ) → String → Deployment
push_row id now app_id by = fresh id app_id now queued (or_manual by) none

insert_row-has_app :
    (row : Deployment) (db : Db) {db' : Db} (app_id : ℕ)
    → insert_row row db ≡ ok db'
    → has_app app_id db' ≡ has_app app_id db
unfolding insert_row
insert_row-has_app row db app_id h = ground arith

-- A push that is answered with 503 strands its app, if the app exists: the row that it created
-- keeps the app's lane although the worker was not given it, and the next manual deploy of the app
-- is refused with 409.
pub webhook_deploy-503_strands :
    (id now app_id : ℕ) (by : String) (approval shut : Bool) (c : Control) (id₂ now₂ : ℕ)
    → has_app app_id c.db ≡ true
    → (webhook_deploy id now app_id by approval shut c).1.code ≡ 503
    → let c' = (webhook_deploy id now app_id by approval shut c).0 in
      (lane_taken app_id c'.db.rows ≡ true)
      × (c'.worker ≡ c.worker)
      × ((trigger_deployment id₂ now₂ app_id c').1.code ≡ 409)
unfolding webhook_deploy trigger_deployment create_deployment create_deployment_with_status
    holds_lane
webhook_deploy-503_strands id now app_id by approval shut c id₂ now₂ known h =
    elim (Result-cases (insert_row (push_row id now app_id by) c.db)) [
      | inr (e, failed) ↦ absurd (ground arith)
      | inl (db', made) ↦ elim (Option-cases (enqueue id c.worker)) [
        | inr (w, room) ↦ absurd (ground arith)
        | inl full ↦
            let taken = insert_takes (push_row id now app_id by) c.db {db' = db'} refl made in
            let again = insert_taken (manual_row id₂ now₂ app_id) db' refl taken in
            let still : has_app app_id db' ≡ true =
              insert_row-has_app (push_row id now app_id by) c.db {db' = db'} app_id made ∙ known in
            (ground arith, ground arith, ground arith)
      ]
    ]
