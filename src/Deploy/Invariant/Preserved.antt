-- ===== src/Deploy/Invariant/Preserved.antt =====
-- The order of the rows is kept by every statement of api/internal/store/deployments.go.
use vac.Deploy.Status.{queued, canceled, DeploymentStatus, pending_approval, scheduled, interrupted}
use vac.Deploy.Invariant.{ordered, Keeps, ordered-update, ordered-keep}
use vac.Deploy.Table.{
  create_deployment, create_deployment_with_status, create_rollback_deployment,
  release_scheduled_deployment, approve_deployment, reject_deployment, fail_queued_deployment,
  unqueue_approval, unqueue_scheduled, update_deployment_status, mark_deployment_started,
  mark_deployment_finished, set_deployment_commit, set_deployment_compose_hash,
  reap_stuck_deployments, mark_in_progress_deployments_interrupted, fresh, or_manual,
}
use vac.Deploy.Retention.{prune_deployments, is_kept, clear_dangling}
use vac.Deploy.Statement.{
  execute, Statement, create, create_with_status, create_rollback, release, approve, reject,
  fail_queued, unapprove, unrelease, set_status, start, finish, set_commit, set_compose_hash, reap,
  prune, interrupt_all,
}
use vac.Prelude.{
  ℕ, Bool, List, ◌≡◌, true, Bool-cases, ◌==◌, All, inl, All-intro, inr, arith, keep, some, All-map,
  refl, ◌&&◌, false,
}
use vac.Deploy.Schema.{
  Deployment, Db, holds_lane, in_flight, ok, has_id, is_scheduled, is_pending, is_queued, coalesce,
}
use vac.Deploy.Invariant.Execute.{
  Proper, insert_returning_ok, ordered-insert_row, ordered-exec, ordered-exec_found,
  ordered-exec_any, ordered-exec_returning, map-update_rows, rollback_inserts, rollback_row,
}

abbrev Same : (Deployment → Deployment) → Type 0
Same f =
    (d : Deployment)
    → ((f d).id ≡ d.id) × ((f d).app_id ≡ d.app_id) × ((f d).triggered_at ≡ d.triggered_at)

-- An update that leaves the three columns alone, and puts no row into a lane.
settles :
    (p : Deployment → Bool) (f : Deployment → Deployment) (rows : List Deployment)
    → Same f
    → ((d : Deployment) → p d ≡ true → holds_lane (f d).status ≡ true → holds_lane d.status ≡ true)
    → All (Keeps p f) rows
settles p f rows same lane =
    All-intro (Keeps p f) (λ d h. ((same d).0, (same d).1, (same d).2, lane d h)) rows

clear_dangling_same :
    (rows : List Deployment) (d : Deployment)
    → ((clear_dangling rows d).id ≡ d.id)
      × ((clear_dangling rows d).app_id ≡ d.app_id)
      × ((clear_dangling rows d).triggered_at ≡ d.triggered_at)
      × ((clear_dangling rows d).status ≡ d.status)
clear_dangling_same rows d = ground arith

no_lane : {b : Bool} → false ≡ true → b ≡ true
no_lane e = cc

module _ (tie : ℕ → ℕ → Bool) where
  pruned_kept : (left : List Deployment) → All (Keeps (λ _. true) (clear_dangling left)) left
  pruned_kept left =
      All-intro (Keeps (λ _. true) (clear_dangling left))
        (λ d h. let (i, a, t, st) = clear_dangling_same left d in (i, a, t, λ l. rw st at l)) left

  pub ordered-prune :
      (keep_n : ℕ) (db : Db)
      → ordered db.rows ≡ true
      → ordered (prune_deployments tie keep_n db).1.rows ≡ true
  unfolding prune_deployments
  ordered-prune keep_n db o =
      let left = keep (is_kept tie keep_n db.rows) db.rows in
      elim (Bool-cases (keep_n == 0)) [
        | inl z ↦ rw z o
        | inr nz ↦ rw nz (
            rw (map-update_rows (clear_dangling left) left) (
              ordered-update (λ _. true) (clear_dangling left) left (pruned_kept left)
                (ordered-keep (is_kept tie keep_n db.rows) db.rows o)))
      ]

  -- Between statements no app has two rows in its lane, no two rows share an id, and a row in a
  -- lane is the newest of its app: each of the seventeen statements that succeeds keeps the order
  -- that says so, if the clock is past every row at an insert, a row is created in a status that
  -- takes the lane, and a status write leaves settled rows settled.
  pub execute-ordered :
      (now : ℕ) (st : Statement) (db : Db) {db' : Db}
      → Proper now st db
      → ordered db.rows ≡ true
      → execute tie now st db ≡ ok db'
      → ordered db'.rows ≡ true
  unfolding execute create_deployment create_deployment_with_status create_rollback_deployment
      release_scheduled_deployment approve_deployment reject_deployment fail_queued_deployment
      unqueue_approval unqueue_scheduled update_deployment_status mark_deployment_started
      mark_deployment_finished set_deployment_commit set_deployment_compose_hash
      reap_stuck_deployments mark_in_progress_deployments_interrupted holds_lane in_flight
  execute-ordered now (create id app t from) db past o h =
      ordered-insert_row (fresh id app now queued (or_manual t) from) db refl past o
        (insert_returning_ok (fresh id app now queued (or_manual t) from) db h)
  execute-ordered now (create_with_status id app t s from) db (past, lane) o h =
      ordered-insert_row (fresh id app now s (or_manual t) from) db lane past o
        (insert_returning_ok (fresh id app now s (or_manual t) from) db h)
  execute-ordered now (create_rollback id app source) db past o h =
      let (row, inserted) = rollback_inserts now id app source db h in
      ordered-insert_row (rollback_row now id app source row) db refl past o inserted
  execute-ordered now (release id) db _ o h =
      ordered-exec_found (λ d. has_id id d && is_scheduled d.status)
        (λ d. record d { status = queued }) db h o
        (settles (λ d. has_id id d && is_scheduled d.status) (λ d. record d { status = queued }) _
          (λ d. (refl, refl, refl)) (λ d k l. ground arith))
  execute-ordered now (approve app id) db _ o h =
      ordered-exec_returning (λ d. has_id id d && (d.app_id == app && is_pending d.status))
        (λ d. record d { status = queued }) db h o
        (settles (λ d. has_id id d && (d.app_id == app && is_pending d.status))
          (λ d. record d { status = queued }) _ (λ d. (refl, refl, refl)) (λ d k l. ground arith))
  execute-ordered now (reject app id) db _ o h =
      ordered-exec_returning _
        (λ d. record d {
          status = canceled;
          error = some "rejected by operator";
          finished_at = some now;
        })
        db h o
        (settles _
          (λ d. record d {
            status = canceled;
            error = some "rejected by operator";
            finished_at = some now;
          })
          _ (λ d. (refl, refl, refl)) (λ d k l. no_lane l))
  execute-ordered now (fail_queued id reason) db _ o h =
      ordered-exec_any _
        (λ d. record d {
          status = DeploymentStatus.error;
          error = some reason;
          finished_at = some now;
        })
        db h o
        (settles _
          (λ d. record d {
            status = DeploymentStatus.error;
            error = some reason;
            finished_at = some now;
          })
          _ (λ d. (refl, refl, refl)) (λ d k l. no_lane l))
  execute-ordered now (unapprove app id) db _ o h =
      ordered-exec_any (λ d. has_id id d && (d.app_id == app && is_queued d.status))
        (λ d. record d { status = pending_approval }) db h o
        (settles (λ d. has_id id d && (d.app_id == app && is_queued d.status))
          (λ d. record d { status = pending_approval }) _ (λ d. (refl, refl, refl))
          (λ d k l. ground arith))
  execute-ordered now (unrelease id) db _ o h =
      ordered-exec_any (λ d. has_id id d && is_queued d.status)
        (λ d. record d { status = scheduled }) db h o
        (settles (λ d. has_id id d && is_queued d.status) (λ d. record d { status = scheduled }) _
          (λ d. (refl, refl, refl)) (λ d k l. ground arith))
  execute-ordered now (set_status id s message) db stays o h =
      ordered-exec_found _ (λ d. record d { status = s; error = coalesce message d.error }) db h o
        (All-map _ (Keeps _ (λ d. record d { status = s; error = coalesce message d.error }))
          (λ d lane k. (refl, refl, refl, lane k)) db.rows stays)
  execute-ordered now (start id) db _ o h =
      ordered-exec_found _ (λ d. record d { started_at = some now }) db h o
        (settles _ (λ d. record d { started_at = some now }) _ (λ d. (refl, refl, refl))
          (λ d k l. l))
  execute-ordered now (finish id s message) db stays o h =
      ordered-exec_found _
        (λ d. record d { status = s; error = coalesce message d.error; finished_at = some now }) db
        h o
        (All-map _
          (Keeps _ (λ d. record d {
            status = s;
            error = coalesce message d.error;
            finished_at = some now;
          }))
          (λ d lane k. (refl, refl, refl, lane k)) db.rows stays)
  execute-ordered now (set_commit id sha message) db _ o h =
      ordered-exec_found _
        (λ d. record d {
          commit_sha = coalesce sha d.commit_sha;
          commit_message = coalesce message d.commit_message;
        })
        db h o
        (settles _
          (λ d. record d {
            commit_sha = coalesce sha d.commit_sha;
            commit_message = coalesce message d.commit_message;
          })
          _ (λ d. (refl, refl, refl)) (λ d k l. l))
  execute-ordered now (set_compose_hash id hash) db _ o h =
      ordered-exec_found _ (λ d. record d { compose_hash = some hash }) db h o
        (settles _ (λ d. record d { compose_hash = some hash }) _ (λ d. (refl, refl, refl))
          (λ d k l. l))
  execute-ordered now (reap older) db _ o h =
      ordered-exec _
        (λ d. record d {
          status = DeploymentStatus.error;
          error = coalesce d.error (some "deploy timed out — no progress for too long");
          finished_at = coalesce d.finished_at (some now);
        })
        db h o
        (settles _
          (λ d. record d {
            status = DeploymentStatus.error;
            error = coalesce d.error (some "deploy timed out — no progress for too long");
            finished_at = coalesce d.finished_at (some now);
          })
          _ (λ d. (refl, refl, refl)) (λ d k l. no_lane l))
  execute-ordered now interrupt_all db _ o h =
      ordered-exec _
        (λ d. record d {
          status = interrupted;
          error = coalesce d.error (some "vac-api restarted mid-deploy");
          finished_at = coalesce d.finished_at (some now);
        })
        db h o
        (settles _
          (λ d. record d {
            status = interrupted;
            error = coalesce d.error (some "vac-api restarted mid-deploy");
            finished_at = coalesce d.finished_at (some now);
          })
          _ (λ d. (refl, refl, refl)) (λ d k l. no_lane l))
  execute-ordered now (prune keep_n) db {db'} _ o h =
      let done : db'.rows ≡ (prune_deployments tie keep_n db).1.rows = ground arith in
      rw done (ordered-prune keep_n db o)
