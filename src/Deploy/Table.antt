-- ===== src/Deploy/Table.antt =====
-- api/internal/store/deployments.go: the statements on the deployments table, each a function of
-- the database and of NOW(). `id` is what gen_random_uuid() yields.
pub mod Create
pub mod Settled
pub mod RoundTrip
use text.Mathlib.Text.{◌==◌ as str_eq}
use vac.Prelude.{
  ℕ, ◌+◌, Bool, not, ◌&&◌, ◌||◌, List, String, Option, none, some, any, keep, ltb, ◌==◌,
  if◌then◌else◌, map, is_some,
}
use vac.Deploy.Status.{
  DeploymentStatus, queued, running, error, interrupted, canceled, scheduled, pending_approval,
}
use vac.Deploy.Schema.{
  Deployment, App, Db, Error, not_found, active_deployment_exists, rollback_source_invalid,
  foreign_key, unique_violation, Result, ok, err, ◌>>=◌, in_flight, is_queued, is_scheduled,
  is_pending, is_running, has_id, insert_row, exec, exec_found, exec_any, exec_returning, first,
  coalesce,
}

-- isUniqueViolation(err) ⟶ ErrActiveDeploymentExists
abbrev pub on_conflict {ℓ} : {A : Type ℓ} → Result A → Result A
on_conflict (err unique_violation) = err active_deployment_exists
on_conflict r = r

abbrev pub or_manual : String → String
or_manual triggered_by = if str_eq triggered_by "" then "manual" else triggered_by

-- A new row with the column defaults.
abbrev pub fresh : ℕ → ℕ → ℕ → DeploymentStatus → String → Option ℕ → Deployment
fresh id app_id now status triggered_by rolled_back_from = record {
  id = id;
  app_id = app_id;
  status = status;
  triggered_at = now;
  triggered_by = triggered_by;
  rolled_back_from = rolled_back_from;
  started_at = none;
  finished_at = none;
  compose_hash = none;
  commit_sha = none;
  commit_message = none;
  error = none;
}

abbrev pub insert_returning : Deployment → Db → Result (Deployment × Db)
insert_returning d db = on_conflict (insert_row d db >>= λ db'. ok (d, db'))

unfoldable pub create_deployment_with_status :
    (id now app_id : ℕ) → String → DeploymentStatus → Option ℕ → Db → Result (Deployment × Db)
create_deployment_with_status id now app_id triggered_by status rolled_back_from db =
    insert_returning (fresh id app_id now status (or_manual triggered_by) rolled_back_from) db

-- CreateDeployment leaves the status to the column default, 'queued'.
unfoldable pub create_deployment :
    (id now app_id : ℕ) → String → Option ℕ → Db → Result (Deployment × Db)
create_deployment id now app_id triggered_by rolled_back_from db =
    insert_returning (fresh id app_id now queued (or_manual triggered_by) rolled_back_from) db

unfoldable pub get_deployment : ℕ → Db → Result Deployment
get_deployment id db = elim (first (has_id id) db.rows) [ none ↦ err not_found | some d ↦ ok d ]

-- src.AppID == appID && src.Status == "running" && src.CommitSHA != nil
abbrev pub is_rollback_source : ℕ → Deployment → Bool
is_rollback_source app_id d = d.app_id == app_id && is_running d.status && is_some d.commit_sha

unfoldable pub create_rollback_deployment :
    (id now app_id source_id : ℕ) → Db → Result (Deployment × Db)
create_rollback_deployment id now app_id source_id db = do
  source ← get_deployment source_id db
  if is_rollback_source app_id source
      then insert_returning
          (record (fresh id app_id now queued "rollback" (some source_id)) {
            commit_sha = source.commit_sha;
            commit_message = source.commit_message;
          })
          db
      else err rollback_source_invalid

unfoldable pub release_scheduled_deployment : ℕ → Db → Result Db
release_scheduled_deployment id =
    exec_found (λ d. has_id id d && is_scheduled d.status) (λ d. record d { status = queued })

unfoldable pub approve_deployment : (app_id id : ℕ) → Db → Result (Deployment × Db)
approve_deployment app_id id =
    exec_returning (λ d. has_id id d && (d.app_id == app_id && is_pending d.status))
      (λ d. record d { status = queued })

unfoldable pub reject_deployment : (now app_id id : ℕ) → Db → Result (Deployment × Db)
reject_deployment now app_id id =
    exec_returning (λ d. has_id id d && (d.app_id == app_id && is_pending d.status))
      (λ d. record d {
        status = canceled;
        error = some "rejected by operator";
        finished_at = some now;
      })

unfoldable pub fail_queued_deployment : (now id : ℕ) → String → Db → Result Db
fail_queued_deployment now id reason =
    exec_any (λ d. has_id id d && is_queued d.status)
      (λ d. record d {
        status = DeploymentStatus.error;
        error = some reason;
        finished_at = some now;
      })

unfoldable pub unqueue_approval : (app_id id : ℕ) → Db → Result Db
unqueue_approval app_id id =
    exec_any (λ d. has_id id d && (d.app_id == app_id && is_queued d.status))
      (λ d. record d { status = pending_approval })

unfoldable pub unqueue_scheduled : ℕ → Db → Result Db
unqueue_scheduled id =
    exec_any (λ d. has_id id d && is_queued d.status) (λ d. record d { status = scheduled })

unfoldable pub update_deployment_status : ℕ → DeploymentStatus → Option String → Db → Result Db
update_deployment_status id status message =
    exec_found (has_id id) (λ d. record d { status = status; error = coalesce message d.error })

unfoldable pub mark_deployment_started : (now id : ℕ) → Db → Result Db
mark_deployment_started now id =
    exec_found (λ d. has_id id d && not (is_some d.started_at))
      (λ d. record d { started_at = some now })

unfoldable pub mark_deployment_finished :
    (now id : ℕ) → DeploymentStatus → Option String → Db → Result Db
mark_deployment_finished now id status message =
    exec_found (has_id id)
      (λ d. record d { status = status; error = coalesce message d.error; finished_at = some now })

unfoldable pub set_deployment_commit : ℕ → Option String → Option String → Db → Result Db
set_deployment_commit id sha message = exec_found (has_id id) (λ d. record d {
  commit_sha = coalesce sha d.commit_sha;
  commit_message = coalesce message d.commit_message;
})

unfoldable pub set_deployment_compose_hash : ℕ → String → Db → Result Db
set_deployment_compose_hash id hash =
    exec_found (has_id id) (λ d. record d { compose_hash = some hash })

-- When work began, or when the deploy was queued.
abbrev pub since : Deployment → ℕ
since d = elim d.started_at [ none ↦ d.triggered_at | some t ↦ t ]

-- `since < now - older_than` is written without the subtraction.
unfoldable pub reap_stuck_deployments : (now older_than : ℕ) → Db → Result (ℕ × Db)
reap_stuck_deployments now older_than =
    exec (λ d. in_flight d.status && ltb (since d + older_than) now)
      (λ d. record d {
        status = DeploymentStatus.error;
        error = coalesce d.error (some "deploy timed out — no progress for too long");
        finished_at = coalesce d.finished_at (some now);
      })

unfoldable pub mark_in_progress_deployments_interrupted : (now : ℕ) → Db → Result (ℕ × Db)
mark_in_progress_deployments_interrupted now =
    exec (λ d. in_flight d.status)
      (λ d. record d {
        status = interrupted;
        error = coalesce d.error (some "vac-api restarted mid-deploy");
        finished_at = coalesce d.finished_at (some now);
      })

-- SELECT EXISTS over the five in-flight statuses.
unfoldable pub has_active_deployment : ℕ → Db → Bool
has_active_deployment app_id db = any (λ d. d.app_id == app_id && in_flight d.status) db.rows

unfoldable pub active_deployment_ids_for_app : ℕ → Db → List ℕ
active_deployment_ids_for_app app_id db =
    map (λ d. d.id) (keep (λ d. d.app_id == app_id && in_flight d.status) db.rows)
