-- ===== src/Deploy/Sweeper.antt =====
-- api/internal/deploy/window_sweeper.go, with ListScheduledDeployments of
-- api/internal/store/deployments.go and ParseWindows of api/internal/webhook/deploywindow.go. The
-- parameters are the JSON decoder, whether the windows allow a deploy at an instant (that is
-- `allows` of Webhook/Window.antt at a clock), and the order of rows of one instant.
pub mod Handed
mod Tests
use vac.Deploy.Schema.{App, Db, Deployment, err, ok, is_scheduled, Result}
use vac.Prelude.{
  List, ℕ, Bool, Option, String, some, ◌∷◌, if◌then◌else◌, ltb, map, [], ◌==◌, keep, texts_eq, ◌||◌,
  ◌&&◌, none, false,
}
use vac.Deploy.Table.{release_scheduled_deployment, unqueue_scheduled}
use vac.Deploy.Worker.{enqueue, Worker}

pub record ScheduledDeploy : Type 0 where
  pub deployment_id : ℕ
  pub app_id : ℕ
  pub triggered_by : String
  pub deploy_window : List ℕ

abbrev pub window_of : ℕ → List App → List ℕ
window_of app_id [] = []
window_of app_id (a ∷ rest) = if a.id == app_id then a.deploy_window else window_of app_id rest

-- ORDER BY triggered_at ASC, where `tie a b` says that row a comes ahead of row b of that instant.
abbrev older : (ℕ → ℕ → Bool) → Deployment → Deployment → Bool
older tie d e =
    ltb d.triggered_at e.triggered_at || (d.triggered_at == e.triggered_at && tie d.id e.id)

abbrev insert_oldest : (ℕ → ℕ → Bool) → Deployment → List Deployment → List Deployment
insert_oldest tie d [] = d ∷ []
insert_oldest tie d (e ∷ es) = if older tie d e then d ∷ e ∷ es else e ∷ insert_oldest tie d es

abbrev sort_oldest : (ℕ → ℕ → Bool) → List Deployment → List Deployment
sort_oldest tie [] = []
sort_oldest tie (d ∷ ds) = insert_oldest tie d (sort_oldest tie ds)

abbrev scheduled_deploy : List App → Deployment → ScheduledDeploy
scheduled_deploy apps d = record {
  deployment_id = d.id;
  app_id = d.app_id;
  triggered_by = d.triggered_by;
  deploy_window = window_of d.app_id apps;
}

unfoldable pub list_scheduled_deployments : (ℕ → ℕ → Bool) → Db → List ScheduledDeploy
list_scheduled_deployments tie db =
    map (scheduled_deploy db.apps) (sort_oldest tie (keep (λ d. is_scheduled d.status) db.rows))

-- What Enqueue of a released row leaves, from its answer and that of UnqueueScheduled: a row that
-- the worker has no room for goes back to scheduled; an error of that is only logged.
abbrev pub offered : Option Worker → Result Db → Db × Worker → Db × Worker
offered (some w') reverted (db, w) = (db, w')
offered none (ok db') (db, w) = (db', w)
offered none (err e) (db, w) = (db, w)

abbrev pub offer : ℕ → Db × Worker → Db × Worker
offer id (db, w) = offered (enqueue id w) (unqueue_scheduled id db) (db, w)

module _ {Schedule : Type 0} (decode : List ℕ → Option (List Schedule))
    (allows : ℕ → List Schedule → Bool) where
  -- ParseWindows: nothing, or the text null, is no window at all.
  unfoldable pub parse_windows : List ℕ → Option (List Schedule)
  parse_windows [] = some []
  parse_windows (c ∷ cs) =
      if texts_eq (c ∷ cs) (b'n' ∷ b'u' ∷ b'l' ∷ b'l' ∷ []) then some [] else decode (c ∷ cs)

  -- Whether the schedule parses and allows a deploy now.
  abbrev pub may_release : ℕ → List ℕ → Bool
  may_release now raw = elim (parse_windows raw) [
    | none ↦ false
    | some windows ↦ allows now windows
  ]

  -- One turn of the loop of sweep.
  unfoldable pub release_one : ℕ → ScheduledDeploy → Db × Worker → Db × Worker
  release_one now s (db, w) =
      if may_release now s.deploy_window
      then elim (release_scheduled_deployment s.deployment_id db) [
        | err _ ↦ (db, w)
        | ok db' ↦ offer s.deployment_id (db', w)
      ]
      else (db, w)

  unfoldable pub sweep_all : ℕ → List ScheduledDeploy → Db × Worker → Db × Worker
  sweep_all now [] s = s
  sweep_all now (d ∷ ds) s = sweep_all now ds (release_one now d s)

  unfoldable pub sweep : (ℕ → ℕ → Bool) → ℕ → Db × Worker → Db × Worker
  sweep tie now (db, w) = sweep_all now (list_scheduled_deployments tie db) (db, w)
