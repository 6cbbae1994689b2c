-- ===== src/Deploy/Pipeline/Lifecycle.antt =====
-- The lifecycle of a deployment that api/internal/deploy/pipeline.go runs, and what a run's state has at
-- a point of it.
use vac.Deploy.Schema.Success.{exec_found_rows}
use vac.Deploy.Pipeline.{Run}
use vac.Deploy.Schema.{
  Deployment, Db, ok, in_flight, has_id, lanes_unique, update_rows, exec, exec_found,
}
use vac.Deploy.Status.{
  DeploymentStatus, queued, cloning, building, deploying, health_checking, running,
}
use vac.Prelude.{
  List, Bool, [], ℕ, ◌≡◌, All, any, is_some, true, ◌∷◌, arith, if◌then◌else◌, refl, ◌∙◌, subst, sym,
  Bool-cases, inl, inr,
}

-- The steps of the lifecycle.
pub data Next : DeploymentStatus → DeploymentStatus → Type 0 where
  to_clone : Next queued cloning
  to_build : Next cloning building
  to_deploy : Next building deploying
  to_check : Next deploying health_checking
  to_serve : Next health_checking running
  to_error : {st : DeploymentStatus} → in_flight st ≡ true → Next st DeploymentStatus.error

-- A list of statuses, the latest first, that leads from queued to a status.
pub data Leads : List DeploymentStatus → DeploymentStatus → Type 0 where
  at_start : Leads [] queued
  then_to :
      {history : List DeploymentStatus} {a b : DeploymentStatus}
      → Leads history a
      → Next a b
      → Leads (b ∷ history) b

-- Each row of the id has the status.
abbrev pub IsAt : ℕ → DeploymentStatus → List Deployment → Type 0
IsAt id st rows = All (λ d. has_id id d ≡ true → d.status ≡ st) rows

abbrev pub IsStored : ℕ → DeploymentStatus → Db → Type 0
IsStored id st db =
    (lanes_unique db.rows ≡ true) × ((any (has_id id) db.rows ≡ true) × IsAt id st db.rows)

-- The run's deployment has the status, to which the run's writes lead; `may_end` says whether its context
-- may end.
abbrev pub On : ℕ → Bool → DeploymentStatus → Run → Type 0
On id may_end st s = IsStored id st s.db × (Leads s.history st × (is_some s.left ≡ may_end))

pub exec_found-lanes_unique :
    (p : Deployment → Bool) (f : Deployment → Deployment) (db : Db) {db' : Db}
    → exec_found p f db ≡ ok db'
    → lanes_unique db'.rows ≡ true
unfolding exec_found exec
exec_found-lanes_unique p f db h = elim (Bool-cases (lanes_unique (update_rows p f db.rows))) [
  | inl y ↦ rw (exec_found_rows p f db h) y
  | inr n ↦ absurd (ground (arith, n, h))
]

any-update :
    (id : ℕ) (p : Deployment → Bool) (f : Deployment → Deployment)
    → ((d : Deployment) → (f d).id ≡ d.id)
    → (rows : List Deployment) → any (has_id id) (update_rows p f rows) ≡ any (has_id id) rows
any-update id p f same [] = refl
any-update id p f same (d ∷ ds) = ground (arith, same d, any-update id p f same ds)

-- A statement that finds its row and moves it from one status to another.
pub IsAt-update :
    (id : ℕ) (st st' : DeploymentStatus) (p : Deployment → Bool) (f : Deployment → Deployment)
    → ((d : Deployment) → (f d).id ≡ d.id)
    → ((d : Deployment)
        → has_id id d ≡ true
        → d.status ≡ st
        → (if p d then f d else d).status ≡ st')
    → (rows : List Deployment) → IsAt id st rows
    → IsAt id st' (update_rows p f rows)
IsAt-update id st st' p f same moves [] h = tt
IsAt-update id st st' p f same moves (d ∷ ds) h = (
  (λ e. moves d (ground (arith, same d)) (h.0 (ground (arith, same d)))),
  IsAt-update id st st' p f same moves ds h.1,
)

pub IsStored-update :
    (id : ℕ) (st st' : DeploymentStatus) (p : Deployment → Bool) (f : Deployment → Deployment)
    (db : Db) {db' : Db}
    → ((d : Deployment) → (f d).id ≡ d.id)
    → ((d : Deployment)
        → has_id id d ≡ true
        → d.status ≡ st
        → (if p d then f d else d).status ≡ st')
    → exec_found p f db ≡ ok db'
    → IsStored id st db
    → IsStored id st' db'
IsStored-update id st st' p f db {db'} same moves h i =
    let e = exec_found_rows p f db h in
    (
      exec_found-lanes_unique p f db h,
      (
        rw e (any-update id p f same db.rows ∙ i.1.0),
        subst (IsAt id st') (sym e) (IsAt-update id st st' p f same moves db.rows i.1.1),
      ),
    )
