-- ===== src/Deploy/Handlers.antt =====
-- The HTTP handlers that drive a deployment: api/internal/server/handler/deployments.go,
-- approvals.go and the end of Webhook in webhooks.go (from the coalescing check on). A handler is a
-- function of the state to the new state and the response; the audit entries are left out. `id` is
-- the UUID that the database draws for a new row and `now` the time.
pub mod Lanes
pub mod Undo
pub mod Push
mod Tests
use vac.Prelude.{
  List, ℕ, String, if◌then◌else◌, none, some, ◌==◌, Bool, not, map, true, false, keep,
}
use vac.Deploy.Status.{
  ServiceStatus, is_terminal, canceled, scheduled, pending_approval, derive_app_status,
}
use vac.Deploy.Schema.{
  Deployment, Db, Result, ok, err, not_found, active_deployment_exists, rollback_source_invalid,
  has_app,
}
use vac.Deploy.Table.{
  create_deployment, create_deployment_with_status, create_rollback_deployment, get_deployment,
  approve_deployment, reject_deployment, unqueue_approval, fail_queued_deployment,
  mark_deployment_finished, has_active_deployment,
}
use vac.Deploy.Worker.{Worker, enqueue, cancel, notify_changed}

pub record Control : Type 0 where
  pub db : Db
  pub worker : Worker
  pub services : List (ℕ × ServiceStatus)  -- the app of a service row, and its status
  pub app_status : ℕ → ServiceStatus  -- the status column of apps

-- The status code and, where the body has one, its status word or error text.
pub record Response : Type 0 where
  pub code : ℕ
  pub body : String

abbrev pub reply : ℕ → String → Response
reply code body = record { code = code; body = body }

-- A best-effort write, whose error the handler drops.
abbrev pub attempt : Result Db → Db → Db
attempt (ok db') db = db'
attempt (err e) db = db

-- Enqueue of a row that was just created; if that fails, FailQueuedDeployment settles it.
hand_over : (now id : ℕ) → String → Control → Control × Response
hand_over now id full c = elim (enqueue id c.worker) [
  | some w ↦ (record c { worker = w }, reply 202 "queued")
  | none ↦ (
    record c {
      db = attempt (fail_queued_deployment now id "deploy queue full at enqueue" c.db) c.db;
    },
    reply 503 full,
  )
]

unfoldable pub trigger_deployment : (id now app_id : ℕ) → Control → Control × Response
unfolding hand_over
trigger_deployment id now app_id c =
    let made = create_deployment id now app_id "manual" none c.db in
    if not (has_app app_id c.db) then (c, reply 404 "app not found") else elim made [
      | ok (d, db) ↦ hand_over now d.id "deploy queue full — retry shortly" (record c { db = db })
      | err active_deployment_exists ↦ (c, reply 409 "a deploy for this app is already in progress")
      | err _ ↦ (c, reply 500 "could not create deployment")
    ]

unfoldable pub rollback_deployment : (id now app_id source_id : ℕ) → Control → Control × Response
unfolding hand_over
rollback_deployment id now app_id source_id c =
    let made = create_rollback_deployment id now app_id source_id c.db in
    if not (has_app app_id c.db) then (c, reply 404 "app not found") else elim made [
      | ok (d, db) ↦ hand_over now d.id "deploy queue full — retry shortly" (record c { db = db })
      | err not_found ↦ (c, reply 404 "deployment not found")
      | err rollback_source_invalid ↦
          (c, reply 422 "can only roll back to a successful deployment of this app")
      | err active_deployment_exists ↦ (c, reply 409 "a deploy for this app is already in progress")
      | err _ ↦ (c, reply 500 "could not create rollback")
    ]

-- recomputeAppStatus
recompute_app_status : ℕ → Control → Control
recompute_app_status app_id c = record c {
  app_status = λ a.
      if a == app_id
      then derive_app_status (map (λ s. s.1) (keep (λ s. s.0 == app_id) c.services))
      else c.app_status a;
}

-- The end of CancelDeployment, behind its guards.
cancel_active : (now app_id id : ℕ) → Control → Control × Response
unfolding recompute_app_status
cancel_active now app_id id c =
    let w = (cancel id c.worker).0 in
    elim (mark_deployment_finished now id canceled (some "canceled by user") c.db) [
      | err _ ↦ (record c { worker = w }, reply 500 "could not cancel deployment")
      | ok db ↦ (
        recompute_app_status app_id (record c { db = db; worker = notify_changed w }),
        reply 200 "canceled",
      )
    ]

unfoldable pub cancel_deployment : (now app_id id : ℕ) → Control → Control × Response
unfolding cancel_active
cancel_deployment now app_id id c = elim (get_deployment id c.db) [
  | err _ ↦ (c, reply 404 "deployment not found")
  | ok d ↦
      if not (d.app_id == app_id)
      then (c, reply 404 "deployment not found")
      else if is_terminal d.status
      then (c, reply 422 "deployment has already finished")
      else cancel_active now app_id id c
]

-- ApproveDeployment of approvals.go: what cannot be enqueued goes back to pending-approval.
unfoldable pub approve : (app_id id : ℕ) → Control → Control × Response
approve app_id id c = elim (approve_deployment app_id id c.db) [
  | err not_found ↦ (c, reply 404 "no pending deployment found")
  | err _ ↦ (c, reply 500 "could not approve deployment")
  | ok (d, db) ↦ elim (enqueue d.id c.worker) [
    | some w ↦ (record c { db = db; worker = w }, reply 200 "queued")
    | none ↦ (
      record c { db = attempt (unqueue_approval app_id d.id db) db },
      reply 503 "deploy queue full — retry shortly",
    )
  ]
]

unfoldable pub reject : (now app_id id : ℕ) → Control → Control × Response
reject now app_id id c = elim (reject_deployment now app_id id c.db) [
  | err not_found ↦ (c, reply 404 "no pending deployment found")
  | err _ ↦ (c, reply 500 "could not reject deployment")
  | ok (d, db) ↦ (record c { db = db }, reply 200 "canceled")
]

-- CreateDeploymentWithStatus of the webhook, where an active deployment counts as parked.
park : (id now app_id : ℕ) → (by : String) → Bool → Control → Control × Response
park id now app_id by approval c =
    let status = if approval then pending_approval else scheduled in
    let word = if approval then "pending-approval" else "scheduled" in
    let failure =
      if approval then "could not create deployment" else "could not schedule deployment" in
    elim (create_deployment_with_status id now app_id by status none c.db) [
      | ok (d, db) ↦ (record c { db = db }, reply 202 word)
      | err active_deployment_exists ↦ (c, reply 202 word)
      | err _ ↦ (c, reply 500 failure)
    ]

-- A matching push: `by` is "push" or "tag", `needs_approval` what the matching trigger says, and
-- `shut` that the deploy windows parse and none of them is open.
unfoldable pub webhook_deploy :
    (id now app_id : ℕ)
    → (by : String) → (needs_approval shut : Bool) → Control
    → Control × Response
unfolding park
webhook_deploy id now app_id by needs_approval shut c =
    let made = create_deployment id now app_id by none c.db in
    if has_active_deployment app_id c.db
    then (c, reply 202 "coalesced")
    else if needs_approval
    then park id now app_id by true c
    else if shut
    then park id now app_id by false c
    else elim made [
      | err active_deployment_exists ↦ (c, reply 202 "coalesced")
      | err _ ↦ (c, reply 500 "could not create deployment")
      | ok (d, db) ↦ elim (enqueue d.id c.worker) [
        | some w ↦ (record c { db = db; worker = w }, reply 202 "deploying")
        | none ↦ (record c { db = db }, reply 503 "deploy queue full — retry shortly")
      ]
    ]
