-- ===== src/Deploy/Table/Settled.antt =====
-- Settled rows of api/internal/store/deployments.go: which statements leave them alone, and what
-- the boot sweep and a finished deploy leave behind.
use vac.Deploy.Invariant.Execute.{insert_returning_ok, rollback_inserts, rollback_row}
use vac.Deploy.Schema.Success.{
  exec_any_rows, exec_found_rows, insert_row_ok, >>=-eq-ok, exec_returning_rows, exec_rows,
}
use vac.Deploy.Schema.Laws.{exec_ok}
use vac.Deploy.Statement.{
  Statement, set_status, start, finish, set_commit, set_compose_hash, prune, execute, create,
  create_with_status, create_rollback, release, approve, reject, fail_queued, unapprove, unrelease,
  reap, interrupt_all,
}
use vac.Deploy.Invariant.{ordered, lanes_unique_of_ordered}
use vac.Deploy.Status.{DeploymentStatus, is_terminal, interrupted, queued}
use vac.Prelude.{
  Bool, ℕ, List, In, ◌≡◌, false, not, true, count, ◌||◌, ◌∷◌, inl, subst, arith, inr, [], refl,
  some, keep,
}
use vac.Deploy.Table.{
  mark_in_progress_deployments_interrupted, create_deployment, create_deployment_with_status,
  create_rollback_deployment, release_scheduled_deployment, approve_deployment, reject_deployment,
  fail_queued_deployment, unqueue_approval, unqueue_scheduled, reap_stuck_deployments, fresh,
  or_manual,
}
use vac.Deploy.Schema.{
  Deployment, holds_lane, in_flight, Db, ok, update_rows, is_scheduled, is_pending, coalesce, exec,
  exec_any, exec_found, exec_returning, insert_row, ◌>>=◌,
}

In-update :
    (p : Deployment → Bool) (f : Deployment → Deployment) (rows : List Deployment) (d : Deployment)
    → In d rows
    → p d ≡ false
    → In d (update_rows p f rows)
In-update p f [] d m h = elim m [ ]
In-update p f (x ∷ xs) d (inl e) h =
    let kept : p x ≡ false = subst (λ y. p y ≡ false) e h in inl (rw kept e)
In-update p f (x ∷ xs) d (inr m) h = inr (In-update p f xs d m h)

-- The index predicate of migration 00076 and IsTerminalDeploymentStatus of status.go split the
-- eleven statuses between them; the in-flight list of the statements leaves the two parked ones out.
pub holds_lane-is_terminal :
    (s : DeploymentStatus)
    → (holds_lane s ≡ not (is_terminal s))
      × (holds_lane s ≡ in_flight s || is_scheduled s || is_pending s)
unfolding holds_lane in_flight
holds_lane-is_terminal s = ground arith

abbrev live : Deployment → Bool
live d = in_flight d.status

abbrev interrupt : ℕ → Deployment → Deployment
interrupt now d = record d {
  status = interrupted;
  error = coalesce d.error (some "vac-api restarted mid-deploy");
  finished_at = coalesce d.finished_at (some now);
}

parked_left :
    (now : ℕ) (rows : List Deployment)
    → keep (λ d. holds_lane d.status) (update_rows live (interrupt now) rows)
      ≡ keep (λ d. is_scheduled d.status || is_pending d.status) rows
unfolding holds_lane in_flight
parked_left now [] = refl
parked_left now (d ∷ ds) = ground (arith, parked_left now ds)

-- On a table in order the boot sweep succeeds, its count is the number of rows that were in flight,
-- and the rows that hold a lane afterwards are exactly the scheduled and pending-approval ones of
-- before, unchanged and in their order.
pub interrupted_all :
    (now : ℕ) (db : Db)
    → ordered db.rows ≡ true
    → (db' : Db) × (mark_in_progress_deployments_interrupted now db
        ≡ ok (count (λ d. in_flight d.status) db.rows, db'))
      × (keep (λ d. holds_lane d.status) db'.rows
          ≡ keep (λ d. is_scheduled d.status || is_pending d.status) db.rows)
unfolding mark_in_progress_deployments_interrupted holds_lane in_flight
interrupted_all now db o = (
  record db { rows = update_rows live (interrupt now) db.rows },
  exec_ok live (interrupt now) (λ d l. (refl, λ h. cc)) db (lanes_unique_of_ordered db.rows o),
  parked_left now db.rows,
)

-- Whether the statement writes only to rows that one of its own status tests lets through.
abbrev pub IsGuarded : Statement → Type 0
IsGuarded (set_status id s message) = ⊥
IsGuarded (start id) = ⊥
IsGuarded (finish id s message) = ⊥
IsGuarded (set_commit id sha message) = ⊥
IsGuarded (set_compose_hash id hash) = ⊥
IsGuarded (prune keep_n) = ⊥
IsGuarded _ = Unit

-- A row that passes no status test of the statement's own is there afterwards as it was.
module _ (p : Deployment → Bool) (f : Deployment → Deployment) (db : Db) (d : Deployment)
    (m : In d db.rows) where
  In-exec : {db' : Db} → (exec p f db >>= λ r. ok r.1) ≡ ok db' → p d ≡ false → In d db'.rows
  In-exec {db'} e h =
      let (r, e', k) = >>=-eq-ok (exec p f db) _ e in
      let done : db'.rows ≡ r.1.rows = ground arith in
      rw (done, exec_rows p f db e') (In-update p f db.rows d m h)

  In-exec_found : {db' : Db} → exec_found p f db ≡ ok db' → p d ≡ false → In d db'.rows
  In-exec_found e h = rw (exec_found_rows p f db e) (In-update p f db.rows d m h)

  In-exec_any : {db' : Db} → exec_any p f db ≡ ok db' → p d ≡ false → In d db'.rows
  In-exec_any e h = rw (exec_any_rows p f db e) (In-update p f db.rows d m h)

  In-exec_returning :
      {db' : Db} → (exec_returning p f db >>= λ r. ok r.1) ≡ ok db' → p d ≡ false → In d db'.rows
  In-exec_returning {db'} e h =
      let (r, e', k) = >>=-eq-ok (exec_returning p f db) _ e in
      let done : db'.rows ≡ r.1.rows = ground arith in
      rw (done, exec_returning_rows p f db e') (In-update p f db.rows d m h)

In-insert :
    (x d : Deployment) (db : Db) {db' : Db}
    → In d db.rows
    → insert_row x db ≡ ok db'
    → In d db'.rows
In-insert x d db m e = rw (insert_row_ok x db e).0 (inr m)

-- A settled deployment stays as it is under every statement that tests the status: the three
-- inserts, release, approve, reject, fail-queued, the two reverts, the reaper and the boot sweep.
pub execute-In_settled :
    (tie : ℕ → ℕ → Bool) (now : ℕ) (st : Statement) (db : Db) {db' : Db} (d : Deployment)
    → IsGuarded st
    → In d db.rows
    → is_terminal d.status ≡ true
    → execute tie now st db ≡ ok db'
    → In d db'.rows
unfolding execute create_deployment create_deployment_with_status create_rollback_deployment
    release_scheduled_deployment approve_deployment reject_deployment fail_queued_deployment
    unqueue_approval unqueue_scheduled reap_stuck_deployments
    mark_in_progress_deployments_interrupted in_flight
execute-In_settled tie now (create id app t from) db d g m s e =
    In-insert (fresh id app now queued (or_manual t) from) d db m
      (insert_returning_ok (fresh id app now queued (or_manual t) from) db e)
execute-In_settled tie now (create_with_status id app t st from) db d g m s e =
    In-insert (fresh id app now st (or_manual t) from) d db m
      (insert_returning_ok (fresh id app now st (or_manual t) from) db e)
execute-In_settled tie now (create_rollback id app source) db d g m s e =
    let (row, inserted) = rollback_inserts now id app source db e in
    In-insert (rollback_row now id app source row) d db m inserted
execute-In_settled tie now (release id) db d g m s e = In-exec_found _ _ db d m e (ground arith)
execute-In_settled tie now (approve app id) db d g m s e =
    In-exec_returning _ _ db d m e (ground arith)
execute-In_settled tie now (reject app id) db d g m s e =
    In-exec_returning _ _ db d m e (ground arith)
execute-In_settled tie now (fail_queued id reason) db d g m s e =
    In-exec_any _ _ db d m e (ground arith)
execute-In_settled tie now (unapprove app id) db d g m s e = In-exec_any _ _ db d m e (ground arith)
execute-In_settled tie now (unrelease id) db d g m s e = In-exec_any _ _ db d m e (ground arith)
execute-In_settled tie now (reap older) db d g m s e = In-exec _ _ db d m e (ground arith)
execute-In_settled tie now interrupt_all db d g m s e = In-exec _ _ db d m e (ground arith)
execute-In_settled tie now (set_status id t message) db d g m s e = absurd g
execute-In_settled tie now (start id) db d g m s e = absurd g
execute-In_settled tie now (finish id t message) db d g m s e = absurd g
execute-In_settled tie now (set_commit id sha message) db d g m s e = absurd g
execute-In_settled tie now (set_compose_hash id hash) db d g m s e = absurd g
execute-In_settled tie now (prune keep_n) db d g m s e = absurd g
