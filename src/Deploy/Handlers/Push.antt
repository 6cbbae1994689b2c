-- ===== src/Deploy/Handlers/Push.antt =====
-- When the deploying half of Webhook in api/internal/server/handler/webhooks.go gives the worker a row.
use vac.Deploy.Table.{create_deployment, has_active_deployment}
use vac.Prelude.{length, ◌<◌, ℕ, String, Bool, ◌≡◌, false, ◌++◌, ◌∷◌, [], arith, true}
use vac.Deploy.Worker.{enqueue}
use vac.Deploy.Handlers.{park, Control, webhook_deploy}

-- Whether the handler gave the worker something to run.
abbrev pub HandsOver : Control → Control → Type 0
HandsOver c c' = length c.worker.queue < length c'.worker.queue

park-worker :
    (id now app_id : ℕ) (by : String) (approval : Bool) (c : Control)
    → (park id now app_id by approval c).0.worker ≡ c.worker
unfolding park
park-worker id now app_id by approval c = ground arith

pub deploy-HandsOver :
    (id now app_id : ℕ) (by : String) (approval shut : Bool) (c : Control)
    → HandsOver c (webhook_deploy id now app_id by approval shut c).0
    → (approval ≡ false)
      × (shut ≡ false)
      × (has_active_deployment app_id c.db ≡ false)
      × ((webhook_deploy id now app_id by approval shut c).0.worker.queue
          ≡ c.worker.queue ++ id ∷ [])
unfolding webhook_deploy enqueue create_deployment
deploy-HandsOver id now app_id by approval shut c h =
    ground (arith, park-worker id now app_id by true c, park-worker id now app_id by false c)
