-- ===== src/Deploy/Invariant/Execute.antt =====
-- Every statement of api/internal/store/deployments.go keeps the order of the rows, given what its
-- callers see to: the clock has moved on since the last insert, a row is created in a status that
-- takes its lane, and a status write puts no settled row back into a lane.
use vac.Deploy.Table.{insert_returning, create_rollback_deployment, fresh, get_deployment}
use vac.Deploy.Schema.Success.{
  insert_row_ok, >>=-eq-ok, exec_any_rows, exec_found_rows, exec_returning_rows, exec_rows,
}
use vac.Deploy.Status.{DeploymentStatus, queued}
use vac.Prelude.{
  ℕ, List, All, any, map, ◌<◌, ◌≡◌, false, true, ◌∷◌, ap, arith, Bool, [], refl, Option-cases, some,
  inl, inr,
}
use vac.Deploy.Schema.{
  Deployment, Db, holds_lane, has_id, update_rows, insert_row, lane_taken, ok, ◌>>=◌, exec,
  exec_any, exec_found, exec_returning, first,
}
use vac.Deploy.Statement.{
  Statement, create, create_with_status, create_rollback, set_status, finish,
}
use vac.Deploy.Invariant.{clash, ordered, Keeps, ordered-update}

abbrev pub IsPast : ℕ → List Deployment → Type 0
IsPast now = All (λ d. d.triggered_at < now)

-- Every row with the id is in a lane already, if the status is one that takes it.
abbrev pub StaysSettled : ℕ → DeploymentStatus → List Deployment → Type 0
StaysSettled id s = All (λ d. has_id id d ≡ true → holds_lane s ≡ true → holds_lane d.status ≡ true)

abbrev pub Proper : ℕ → Statement → Db → Type 0
Proper now (create id app t from) db = IsPast now db.rows
Proper now (create_with_status id app t s from) db = IsPast now db.rows × (holds_lane s ≡ true)
Proper now (create_rollback id app source) db = IsPast now db.rows
Proper now (set_status id s message) db = StaysSettled id s db.rows
Proper now (finish id s message) db = StaysSettled id s db.rows
Proper now _ db = Unit

clash_free :
    (d : Deployment) (rows : List Deployment)
    → IsPast d.triggered_at rows
    → any (has_id d.id) rows ≡ false
    → lane_taken d.app_id rows ≡ false
    → any (clash d) rows ≡ false
clash_free d [] past i l = refl
clash_free d (e ∷ es) past i l = ground (arith, clash_free d es)

pub ordered-insert_row :
    (d : Deployment) (db : Db) {db' : Db}
    → holds_lane d.status ≡ true
    → IsPast d.triggered_at db.rows
    → ordered db.rows ≡ true
    → insert_row d db ≡ ok db'
    → ordered db'.rows ≡ true
ordered-insert_row d db lane past o h =
    let (rows, fresh_id, free) = insert_row_ok d db h in
    rw rows (rw (clash_free d db.rows past fresh_id (free lane)) o)

pub map-update_rows :
    (f : Deployment → Deployment) (ds : List Deployment) → map f ds ≡ update_rows (λ _. true) f ds
map-update_rows f [] = refl
map-update_rows f (d ∷ ds) = ap (λ r. f d ∷ r) (map-update_rows f ds)

pub insert_returning_ok :
    (d : Deployment) (db : Db) {db' : Db}
    → (insert_returning d db >>= λ r. ok r.1) ≡ ok db'
    → insert_row d db ≡ ok db'
insert_returning_ok d db h = ground arith

-- The row that a rollback puts in.
abbrev pub rollback_row : (now id app_id source_id : ℕ) → Deployment → Deployment
rollback_row now id app_id source_id source =
    record (fresh id app_id now queued "rollback" (some source_id)) {
      commit_sha = source.commit_sha;
      commit_message = source.commit_message;
    }

pub rollback_inserts :
    (now id app_id source_id : ℕ) (db : Db) {db' : Db}
    → (create_rollback_deployment id now app_id source_id db >>= λ r. ok r.1) ≡ ok db'
    → (source : Deployment) × (insert_row (rollback_row now id app_id source_id source) db ≡ ok db')
unfolding create_rollback_deployment get_deployment
rollback_inserts now id app_id source_id db h =
    elim (Option-cases (first (has_id source_id) db.rows)) [
      | inl no_row ↦ absurd (ground arith)
      | inr (source, found) ↦ (source, ground arith)
    ]

-- The statements on rows that are there, each by what it changes.
module _ (p : Deployment → Bool) (f : Deployment → Deployment) (db : Db) where
  pub ordered-exec :
      {db' : Db}
      → (exec p f db >>= λ r. ok r.1) ≡ ok db'
      → ordered db.rows ≡ true
      → All (Keeps p f) db.rows
      → ordered db'.rows ≡ true
  ordered-exec {db'} h o keeps =
      let (r, e, k) = >>=-eq-ok (exec p f db) _ h in
      let done : db'.rows ≡ r.1.rows = ground arith in
      rw (done, exec_rows p f db e) (ordered-update p f db.rows keeps o)

  pub ordered-exec_found :
      {db' : Db}
      → exec_found p f db ≡ ok db'
      → ordered db.rows ≡ true
      → All (Keeps p f) db.rows
      → ordered db'.rows ≡ true
  ordered-exec_found h o keeps = rw (exec_found_rows p f db h) (ordered-update p f db.rows keeps o)

  pub ordered-exec_any :
      {db' : Db}
      → exec_any p f db ≡ ok db'
      → ordered db.rows ≡ true
      → All (Keeps p f) db.rows
      → ordered db'.rows ≡ true
  ordered-exec_any h o keeps = rw (exec_any_rows p f db h) (ordered-update p f db.rows keeps o)

  pub ordered-exec_returning :
      {db' : Db}
      → (exec_returning p f db >>= λ r. ok r.1) ≡ ok db'
      → ordered db.rows ≡ true
      → All (Keeps p f) db.rows
      → ordered db'.rows ≡ true
  ordered-exec_returning {db'} h o keeps =
      let (r, e, k) = >>=-eq-ok (exec_returning p f db) _ h in
      let done : db'.rows ≡ r.1.rows = ground arith in
      rw (done, exec_returning_rows p f db e) (ordered-update p f db.rows keeps o)
