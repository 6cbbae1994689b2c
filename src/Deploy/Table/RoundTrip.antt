-- ===== src/Deploy/Table/RoundTrip.antt =====
-- UnqueueApproval and UnqueueScheduled of api/internal/store/deployments.go undo ApproveDeployment
-- and ReleaseScheduledDeployment.
use vac.Deploy.Status.{queued, pending_approval, scheduled}
use vac.Deploy.Schema.Success.{exec_found_db, exec_returning_db}
use vac.Deploy.Table.{
  approve_deployment, release_scheduled_deployment, unqueue_approval, unqueue_scheduled,
}
use vac.Deploy.Invariant.{ordered, clash, lanes_unique_of_ordered}
use vac.Deploy.Schema.{
  Deployment, has_id, update_rows, exec_any, exec, Db, ok, is_pending, is_scheduled, is_queued,
}
use vac.Prelude.{
  ℕ, Bool, List, ◌≡◌, any, true, ◌&&◌, false, ◌∷◌, arith, not-eq-true, ||-eq-false, &&-eq-true, [],
  Bool-cases, refl, inl, inr, &&-true, subst, ◌==◌, sym, not,
}

update_none :
    (id : ℕ) (q : Deployment → Bool) (f : Deployment → Deployment) (ds : List Deployment)
    → any (has_id id) ds ≡ false
    → update_rows (λ d. has_id id d && q d) f ds ≡ ds
update_none id q f [] h = refl
update_none id q f (d ∷ ds) h =
    let (away, rest) = ||-eq-false (has_id id d) (any (has_id id) ds) h in
    rw (away, update_none id q f ds rest)

-- Two statements on the row with one id, the second of which takes back the first.
module _ (id : ℕ) (q r : Deployment → Bool) (f g : Deployment → Deployment)
    (same_id : (d : Deployment) → (f d).id ≡ d.id)
    (passes : (d : Deployment) → q d ≡ true → r (f d) ≡ true)
    (back : (d : Deployment) → q d ≡ true → g (f d) ≡ d) where
  tail_free :
      (d : Deployment) (ds : List Deployment)
      → has_id id d ≡ true
      → any (clash d) ds ≡ false
      → any (has_id id) ds ≡ false
  tail_free d [] y h = refl
  tail_free d (e ∷ es) y h = ground (arith, tail_free d es)

  there_apart :
      (d : Deployment) (ds : List Deployment)
      → any (λ e. has_id id e && q e) ds ≡ true
      → any (clash d) ds ≡ false
      → has_id id d ≡ false
  there_apart d [] y h = cc
  there_apart d (e ∷ es) y h = ground (arith, there_apart d es)

  pub undone :
      (rows : List Deployment)
      → ordered rows ≡ true
      → any (λ d. has_id id d && q d) rows ≡ true
      → update_rows (λ d. has_id id d && r d) g (update_rows (λ d. has_id id d && q d) f rows)
        ≡ rows
  undone [] o h = cc
  undone (d ∷ ds) o h =
      let free = not-eq-true _ (&&-eq-true _ _ o).0 in
      elim (Bool-cases (has_id id d && q d)) [
        | inl here ↦
            let (mine, takes) = &&-eq-true (has_id id d) (q d) here in
            let none_left = tail_free d ds mine free in
            let again : (has_id id (f d) && r (f d)) ≡ true =
              &&-true (subst (λ n. (n == id) ≡ true) (sym (same_id d)) mine) (passes d takes) in
            rw (
              here,
              update_none id q f ds none_left,
              again,
              back d takes,
              update_none id r g ds none_left,
            )
        | inr not_here ↦
            let later : any (λ e. has_id id e && q e) ds ≡ true = rw not_here at h in
            let away = there_apart d ds later free in
            rw not_here (
              rw away (rw (undone ds (&&-eq-true (not (any (clash d) ds)) (ordered ds) o).1 later)))
      ]

unqueued :
    (id : ℕ) (q r : Deployment → Bool) (f g : Deployment → Deployment) (db : Db)
    → ordered db.rows ≡ true
    → update_rows (λ d. has_id id d && r d) g (update_rows (λ d. has_id id d && q d) f db.rows)
      ≡ db.rows
    → exec_any
        (λ d. has_id id d && r d)
        g
        (record db { rows = update_rows (λ d. has_id id d && q d) f db.rows })
      ≡ ok db
unfolding exec_any exec
unqueued id q r f g db o e = rw e (rw (lanes_unique_of_ordered db.rows o))

-- An approval that cannot be handed to the worker is taken back without a trace: on a table in
-- order, UnqueueApproval behind a successful ApproveDeployment gives the database from before.
pub unqueue_approval-approve_deployment :
    (app_id id : ℕ) (db db' : Db) (d : Deployment)
    → ordered db.rows ≡ true
    → approve_deployment app_id id db ≡ ok (d, db')
    → unqueue_approval app_id id db' ≡ ok db
unfolding approve_deployment unqueue_approval
unqueue_approval-approve_deployment app_id id db db' d o h =
    let (found, left) = exec_returning_db _ _ db h in
    rw left (
      unqueued id (λ d. d.app_id == app_id && is_pending d.status)
        (λ d. d.app_id == app_id && is_queued d.status) (λ d. record d { status = queued })
        (λ d. record d { status = pending_approval }) db o
        (undone id (λ d. d.app_id == app_id && is_pending d.status)
          (λ d. d.app_id == app_id && is_queued d.status) (λ d. record d { status = queued })
          (λ d. record d { status = pending_approval }) (λ d. refl) (λ d q. ground arith)
          (λ d q. ground arith) db.rows o found))

-- The same of the window sweeper: UnqueueScheduled behind a successful ReleaseScheduledDeployment.
pub unqueue_scheduled-release :
    (id : ℕ) (db db' : Db)
    → ordered db.rows ≡ true
    → release_scheduled_deployment id db ≡ ok db'
    → unqueue_scheduled id db' ≡ ok db
unfolding release_scheduled_deployment unqueue_scheduled
unqueue_scheduled-release id db db' o h =
    let (found, left) = exec_found_db _ _ db h in
    rw left (
      unqueued id (λ d. is_scheduled d.status) (λ d. is_queued d.status)
        (λ d. record d { status = queued }) (λ d. record d { status = scheduled }) db o
        (undone id (λ d. is_scheduled d.status) (λ d. is_queued d.status)
          (λ d. record d { status = queued }) (λ d. record d { status = scheduled }) (λ d. refl)
          (λ d q. ground arith) (λ d q. ground arith) db.rows o found))
