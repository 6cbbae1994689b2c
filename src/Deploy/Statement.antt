-- ===== src/Deploy/Statement.antt =====
-- Every statement that api/internal/store/deployments.go can run against the deployments table, as
-- one type, so that what holds between statements is proved once for all of them.
use vac.Prelude.{ℕ, Bool, String, Option}
use vac.Deploy.Status.{DeploymentStatus}
use vac.Deploy.Schema.{Db, Result, ok, ◌>>=◌}
use vac.Deploy.Retention.{prune_deployments}
use vac.Deploy.Table.{
  create_deployment, create_deployment_with_status, create_rollback_deployment,
  release_scheduled_deployment, approve_deployment, reject_deployment, fail_queued_deployment,
  unqueue_approval, unqueue_scheduled, update_deployment_status, mark_deployment_started,
  mark_deployment_finished, set_deployment_commit, set_deployment_compose_hash,
  reap_stuck_deployments, mark_in_progress_deployments_interrupted,
}

pub data Statement : Type 0 where
  create : (id app_id : ℕ) → String → Option ℕ → Statement
  create_with_status : (id app_id : ℕ) → String → DeploymentStatus → Option ℕ → Statement
  create_rollback : (id app_id source_id : ℕ) → Statement
  release : ℕ → Statement
  approve : (app_id id : ℕ) → Statement
  reject : (app_id id : ℕ) → Statement
  fail_queued : ℕ → String → Statement
  unapprove : (app_id id : ℕ) → Statement
  unrelease : ℕ → Statement
  set_status : ℕ → DeploymentStatus → Option String → Statement
  start : ℕ → Statement
  finish : ℕ → DeploymentStatus → Option String → Statement
  set_commit : ℕ → Option String → Option String → Statement
  set_compose_hash : ℕ → String → Statement
  reap : (older_than : ℕ) → Statement
  interrupt_all : Statement
  prune : (keep_n : ℕ) → Statement

module _ (tie : ℕ → ℕ → Bool) where
  unfoldable pub execute : (now : ℕ) → Statement → Db → Result Db
  execute now (create id app t from) db = create_deployment id now app t from db >>= λ r. ok r.1
  execute now (create_with_status id app t s from) db =
      create_deployment_with_status id now app t s from db >>= λ r. ok r.1
  execute now (create_rollback id app source) db =
      create_rollback_deployment id now app source db >>= λ r. ok r.1
  execute now (release id) db = release_scheduled_deployment id db
  execute now (approve app id) db = approve_deployment app id db >>= λ r. ok r.1
  execute now (reject app id) db = reject_deployment now app id db >>= λ r. ok r.1
  execute now (fail_queued id reason) db = fail_queued_deployment now id reason db
  execute now (unapprove app id) db = unqueue_approval app id db
  execute now (unrelease id) db = unqueue_scheduled id db
  execute now (set_status id s message) db = update_deployment_status id s message db
  execute now (start id) db = mark_deployment_started now id db
  execute now (finish id s message) db = mark_deployment_finished now id s message db
  execute now (set_commit id sha message) db = set_deployment_commit id sha message db
  execute now (set_compose_hash id hash) db = set_deployment_compose_hash id hash db
  execute now (reap older) db = reap_stuck_deployments now older db >>= λ r. ok r.1
  execute now interrupt_all db = mark_in_progress_deployments_interrupted now db >>= λ r. ok r.1
  execute now (prune keep_n) db = ok (prune_deployments tie keep_n db).1
