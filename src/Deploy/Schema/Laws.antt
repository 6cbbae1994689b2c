-- ===== src/Deploy/Schema/Laws.antt =====
-- Statements of the schema that keep the lane index: those that put no row into a lane that it did
-- not hold already.
use vac.Prelude.{
  ℕ, Bool, true, false, List, [], ◌∷◌, ◌≡◌, refl, arith, any, not, count, some, ◌==◌, if◌then◌else◌,
}
use vac.Deploy.Schema.{
  Deployment, holds_lane, lane_taken, lanes_unique, update_rows, exec, exec_any, exec_found,
  exec_returning, Db, first, ok, err, not_found,
}

-- The rows that the statement changes stay with their app and enter no lane.
abbrev pub KeepsLanes : (Deployment → Bool) → (Deployment → Deployment) → Type 0
KeepsLanes p f =
    (d : Deployment)
    → p d ≡ true
    → ((f d).app_id ≡ d.app_id) × (holds_lane (f d).status ≡ true → holds_lane d.status ≡ true)

-- RowsAffected is 0 exactly where no row passes.
pub any-count :
    (p : Deployment → Bool) (rows : List Deployment) → any p rows ≡ not (count p rows == 0)
any-count p [] = refl
any-count p (d ∷ ds) = ground (arith, any-count p ds)

module _ (p : Deployment → Bool) (f : Deployment → Deployment) (keeps : KeepsLanes p f) where
  pub lane_taken-update :
      (app_id : ℕ) (rows : List Deployment)
      → lane_taken app_id rows ≡ false
      → lane_taken app_id (update_rows p f rows) ≡ false
  lane_taken-update app_id [] h = refl
  lane_taken-update app_id (d ∷ ds) h = ground (arith, keeps d, lane_taken-update app_id ds)

  pub lanes_unique-update :
      (rows : List Deployment)
      → lanes_unique rows ≡ true
      → lanes_unique (update_rows p f rows) ≡ true
  lanes_unique-update [] h = refl
  lanes_unique-update (d ∷ ds) h =
      ground (arith, keeps d, lane_taken-update d.app_id ds, lanes_unique-update ds)

  -- Such a statement is never refused.
  pub exec_ok :
      (db : Db)
      → lanes_unique db.rows ≡ true
      → exec p f db ≡ ok (count p db.rows, record db { rows = update_rows p f db.rows })
  unfolding exec
  exec_ok db h = rw (lanes_unique-update db.rows h)

  pub exec_found_ok :
      (db : Db)
      → lanes_unique db.rows ≡ true
      → exec_found p f db ≡ (
          if any p db.rows
          then ok (record db { rows = update_rows p f db.rows })
          else err not_found)
  unfolding exec_found
  exec_found_ok db h = rw (exec_ok db h) (ground (arith, any-count p db.rows))

  pub exec_any_ok :
      (db : Db)
      → lanes_unique db.rows ≡ true
      → exec_any p f db ≡ ok (record db { rows = update_rows p f db.rows })
  unfolding exec_any
  exec_any_ok db h = rw (exec_ok db h)

  pub exec_returning_ok :
      (db : Db) (d : Deployment)
      → lanes_unique db.rows ≡ true
      → first p db.rows ≡ some d
      → exec_returning p f db ≡ ok (f d, record db { rows = update_rows p f db.rows })
  unfolding exec_returning
  exec_returning_ok db d h e = ground (arith, exec_ok db h)
