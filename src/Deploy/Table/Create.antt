-- ===== src/Deploy/Table/Create.antt =====
-- CreateDeployment, CreateDeploymentWithStatus and CreateRollbackDeployment of
-- api/internal/store/deployments.go: the lane that a new row takes, and how it is freed.
use vac.Deploy.Table.Settled.{holds_lane-is_terminal}
use vac.Deploy.Schema.Laws.{lane_taken-update}
use vac.Deploy.Invariant.{ordered, lane_taken_of_clash, clash}
use vac.Deploy.Invariant.Execute.{insert_returning_ok}
use vac.Deploy.Schema.Success.{insert_row_ok, exec_found_rows}
use vac.Deploy.Status.{running, DeploymentStatus, queued, is_terminal}
use vac.Prelude.{
  ℕ, String, Option, ◌≡◌, some, is_some, true, ◌∷◌, Option-cases, arith, inl, inr, refl, List, ap,
  false, In, not-eq-true, &&-eq-true, subst, sym, In-any, [],
}
use vac.Deploy.Schema.{
  insert_row, holds_lane, Db, Deployment, ok, err, active_deployment_exists, first, lane_taken,
  has_id, unique_violation, ◌>>=◌, update_rows,
}
use vac.Deploy.Table.{
  create_deployment, create_rollback_deployment, create_deployment_with_status, get_deployment,
  fresh, or_manual, mark_deployment_finished,
}

pub insert_taken :
    (d : Deployment) (db : Db)
    → holds_lane d.status ≡ true
    → lane_taken d.app_id db.rows ≡ true
    → insert_row d db ≡ err unique_violation
unfolding insert_row
insert_taken d db l t = rw (l, t) (ground arith)

pub insert_takes :
    (d : Deployment) (db : Db) {db' : Db}
    → holds_lane d.status ≡ true
    → insert_row d db ≡ ok db'
    → lane_taken d.app_id db'.rows ≡ true
insert_takes d db l h = rw (insert_row_ok d db h).0 (ground arith)

-- Once a deployment is created, no second one can be created for its app in the database that this
-- leaves: CreateDeployment, and CreateDeploymentWithStatus in a status that takes the lane, report
-- ErrActiveDeploymentExists, whatever the new row's id and reason.
pub create_deployment-excludes :
    (id now app_id : ℕ) (t : String) (from : Option ℕ) (db db' : Db) (d : Deployment)
    → create_deployment id now app_id t from db ≡ ok (d, db')
    → (id₂ now₂ : ℕ) (t₂ : String) (s : DeploymentStatus) (from₂ : Option ℕ) → holds_lane s ≡ true
    → (create_deployment id₂ now₂ app_id t₂ from₂ db' ≡ err active_deployment_exists)
      × (create_deployment_with_status id₂ now₂ app_id t₂ s from₂ db'
          ≡ err active_deployment_exists)
unfolding create_deployment create_deployment_with_status holds_lane
create_deployment-excludes id now app_id t from db db' d h id₂ now₂ t₂ s from₂ l =
    let row = fresh id app_id now queued (or_manual t) from in
    let taken : lane_taken app_id db'.rows ≡ true =
      insert_takes row db {db' = db'} refl
        (insert_returning_ok row db {db' = db'} (ap (λ r. r >>= λ x. ok x.1) h)) in
    (
      rw (insert_taken (fresh id₂ app_id now₂ queued (or_manual t₂) from₂) db' refl taken),
      rw (insert_taken (fresh id₂ app_id now₂ s (or_manual t₂) from₂) db' l taken),
    )

-- A rollback that is created rebuilds the commit of a successful deployment of the same app: the
-- new row is queued, points at that deployment, carries its commit, and is the only change.
pub create_rollback_deployment-pins :
    (id now app_id source_id : ℕ) (db db' : Db) (d : Deployment)
    → create_rollback_deployment id now app_id source_id db ≡ ok (d, db')
    → (source : Deployment) × (get_deployment source_id db ≡ ok source)
      × (source.app_id ≡ app_id)
      × (source.status ≡ running)
      × (d.rolled_back_from ≡ some source_id)
      × (d.commit_sha ≡ source.commit_sha)
      × (is_some d.commit_sha ≡ true)
      × (d.status ≡ queued)
      × (db'.rows ≡ d ∷ db.rows)
unfolding create_rollback_deployment get_deployment insert_row
create_rollback_deployment-pins id now app_id source_id db db' d h =
    elim (Option-cases (first (has_id source_id) db.rows)) [
      | inl no_row ↦ absurd (ground arith)
      | inr (source, found) ↦ (
        source,
        ground arith,
        ground arith,
        ground arith,
        ground arith,
        ground arith,
        ground arith,
        ground arith,
        ground arith,
      )
    ]

finish_other :
    (app_id id : ℕ) (f : Deployment → Deployment) (rows : List Deployment)
    → ((d : Deployment) → (f d).app_id ≡ d.app_id)
    → ((d : Deployment) → holds_lane (f d).status ≡ false)
    → lane_taken app_id rows ≡ false
    → lane_taken app_id (update_rows (has_id id) f rows) ≡ false
finish_other app_id id f rows same ends =
    lane_taken-update (has_id id) f (λ d h. (same d, λ l. absurd (ground (arith, ends d)))) app_id
      rows

finish_rows :
    (id : ℕ) (f : Deployment → Deployment) (rows : List Deployment) (d : Deployment)
    → ((d : Deployment) → (f d).app_id ≡ d.app_id)
    → ((d : Deployment) → holds_lane (f d).status ≡ false)
    → ordered rows ≡ true
    → In d rows
    → d.id ≡ id
    → holds_lane d.status ≡ true
    → lane_taken d.app_id (update_rows (has_id id) f rows) ≡ false
finish_rows id f [] d same ends o m i l = elim m [ ]
finish_rows id f (x ∷ xs) d same ends o (inl e) i l =
    let behind = lane_taken_of_clash x xs (not-eq-true _ (&&-eq-true _ _ o).0) in
    let mine : has_id id x ≡ true = ground arith in
    let rest : lane_taken d.app_id xs ≡ false =
      subst (λ y. lane_taken y.app_id xs ≡ false) (sym e) behind in
    rw mine (rw (ends x) (ground (arith, finish_other d.app_id id f xs same ends rest)))
finish_rows id f (x ∷ xs) d same ends o (inr m) i l =
    let apart = In-any (clash x) xs m (not-eq-true _ (&&-eq-true _ _ o).0) in
    let rest : lane_taken d.app_id (update_rows (has_id id) f xs) ≡ false =
      finish_rows id f xs d same ends (&&-eq-true _ _ o).1 m i l in
    ground (arith, same x, ends x)

-- Settling the deployment that holds an app's lane frees the lane: on a table in order that has
-- such a row, after MarkDeploymentFinished of its id with a terminal status no row of the app
-- occupies the lane.
pub mark_deployment_finished-frees :
    (now id : ℕ) (s : DeploymentStatus) (message : Option String) (db db' : Db) (d : Deployment)
    → ordered db.rows ≡ true
    → In d db.rows
    → d.id ≡ id
    → holds_lane d.status ≡ true
    → is_terminal s ≡ true
    → mark_deployment_finished now id s message db ≡ ok db'
    → lane_taken d.app_id db'.rows ≡ false
unfolding mark_deployment_finished
mark_deployment_finished-frees now id s message db db' d o m i l t h =
    rw (exec_found_rows _ _ db h) (finish_rows id _ db.rows d (λ e. refl) (λ e. ends) o m i l)
  where
    ends : holds_lane s ≡ false
    ends = ground (arith, holds_lane-is_terminal s)
