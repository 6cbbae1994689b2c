-- ===== src/Deploy/Handlers/Undo.antt =====
-- Handlers that give a lane back: ApproveDeployment of handler/approvals.go when the queue is full,
-- CancelDeployment of handler/deployments.go.
use vac.Deploy.Table.Settled.{holds_lane-is_terminal}
use vac.Deploy.Worker.{enqueue}
use vac.Deploy.Status.{canceled}
use vac.Deploy.Schema.{lane_taken, Db, Deployment, ok, first, has_id}
use vac.Deploy.Schema.Success.{Result-cases, exec_returning_row, first-found}
use vac.Deploy.Invariant.{ordered}
use vac.Prelude.{ℕ, ◌≡◌, true, false, inr, arith, inl, Option-cases, In, some, refl, subst}
use vac.Deploy.Table.{get_deployment, approve_deployment, mark_deployment_finished}
use vac.Deploy.Handlers.{Control, approve, cancel_deployment, cancel_active, recompute_app_status}
use vac.Deploy.Table.RoundTrip.{unqueue_approval-approve_deployment}
use vac.Deploy.Table.Create.{mark_deployment_finished-frees}

returned_id :
    (app_id id : ℕ) (db db' : Db) (d : Deployment)
    → approve_deployment app_id id db ≡ ok (d, db')
    → d.id ≡ id
unfolding approve_deployment
returned_id app_id id db db' d h =
    let (x, m, q, e) = exec_returning_row _ _ db {d = d} {db' = db'} h in ground arith

get_deployment-found :
    (id : ℕ) (db : Db) (d : Deployment) → get_deployment id db ≡ ok d → In d db.rows × (d.id ≡ id)
unfolding get_deployment
get_deployment-found id db d h = elim (Option-cases (first (has_id id) db.rows)) [
  | inl no_row ↦ absurd (ground arith)
  | inr (x, found) ↦
      let (m, q) = first-found (has_id id) db.rows {d = x} found in
      let same : x ≡ d = ground arith in (subst (λ y. In y db.rows) same m, ground arith)
]

-- An approval that is answered with 503 changes nothing: on a table in order the deployment is
-- back in pending-approval, and no other row, the queue or an app's status differs from before.
pub approve-503_restores :
    (app_id id : ℕ) (c : Control)
    → ordered c.db.rows ≡ true
    → (approve app_id id c).1.code ≡ 503
    → ((approve app_id id c).0.db ≡ c.db)
      × ((approve app_id id c).0.worker ≡ c.worker)
      × ((approve app_id id c).0.app_status ≡ c.app_status)
unfolding approve
approve-503_restores app_id id c o h = elim (Result-cases (approve_deployment app_id id c.db)) [
  | inr (e, failed) ↦ absurd (ground arith)
  | inl ((d, db), done) ↦ elim (Option-cases (enqueue d.id c.worker)) [
    | inr (w, room) ↦ absurd (ground arith)
    | inl full ↦
        let same = returned_id app_id id c.db db d done in
        let back = unqueue_approval-approve_deployment app_id id c.db db d o done in
        (ground arith, ground arith, ground arith)
  ]
]

-- On a table in order, a cancel that is answered with 200 frees the app's lane: afterwards no row
-- of the app occupies it, and it can be deployed again.
pub cancel_deployment-200_frees :
    (now app_id id : ℕ) (c : Control)
    → ordered c.db.rows ≡ true
    → (cancel_deployment now app_id id c).1.code ≡ 200
    → lane_taken app_id (cancel_deployment now app_id id c).0.db.rows ≡ false
unfolding cancel_deployment cancel_active recompute_app_status get_deployment
cancel_deployment-200_frees now app_id id c o h = elim (Result-cases (get_deployment id c.db)) [
  | inr (e, failed) ↦ absurd (ground arith)
  | inl (d, found) ↦
      let (m, i) = get_deployment-found id c.db d found in
      elim (Result-cases
        (mark_deployment_finished now id canceled (some "canceled by user") c.db)) [
          | inr (e, failed) ↦ absurd (ground arith)
          | inl (db', done) ↦
              let free =
                mark_deployment_finished-frees now id canceled (some "canceled by user") c.db db' d
                  o m i (ground (arith, holds_lane-is_terminal d.status)) refl done in
              ground arith
        ]
]
