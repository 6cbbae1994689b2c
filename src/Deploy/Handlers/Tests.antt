-- ===== src/Deploy/Handlers/Tests.antt =====
-- The theorems on the handlers at a full queue, and at a queue with room.
use vac.Deploy.Handlers.Lanes.{trigger_deployment-503_frees, webhook_deploy-503_strands}
use vac.Deploy.Handlers.Undo.{approve-503_restores}
use vac.Prelude.{◌≡◌, false, ◌∷◌, [], true, refl}
use vac.Deploy.Samples.{control, table}
use vac.Deploy.Worker.{enqueue}
use vac.Deploy.Schema.{exec_returning, exec, insert_row, holds_lane, in_flight, lane_taken}
use vac.Deploy.Handlers.{cancel_deployment, trigger_deployment, webhook_deploy}
use vac.Deploy.Table.{approve_deployment, create_deployment, has_active_deployment}

trigger_deployment-503_frees_example :
    lane_taken 3 (trigger_deployment 5 50 3 (control 0)).0.db.rows ≡ false
unfolding trigger_deployment create_deployment insert_row enqueue holds_lane
trigger_deployment-503_frees_example = trigger_deployment-503_frees 5 50 3 (control 0) refl refl

webhook_deploy-503_strands_example :
    let c' = (webhook_deploy 5 50 3 "push" false false (control 0)).0 in
    (lane_taken 3 c'.db.rows ≡ true)
    × (c'.worker ≡ (control 0).worker)
    × ((trigger_deployment 6 60 3 c').1.code ≡ 409)
unfolding webhook_deploy create_deployment insert_row enqueue holds_lane in_flight
    has_active_deployment
webhook_deploy-503_strands_example =
    webhook_deploy-503_strands 5 50 3 "push" false false (control 0) 6 60 refl refl

approve-503_restores_example :
    ((vac.Deploy.Handlers.approve 2 4 (control 0)).0.db ≡ table)
    × ((vac.Deploy.Handlers.approve 2 4 (control 0)).0.worker ≡ (control 0).worker)
    × ((vac.Deploy.Handlers.approve 2 4 (control 0)).0.app_status ≡ (control 0).app_status)
unfolding vac.Deploy.Handlers.approve approve_deployment exec_returning exec enqueue holds_lane
approve-503_restores_example = approve-503_restores 2 4 (control 0) refl refl

-- A manual deploy of an idle app is answered with 202, and the worker gets its row.
trigger_idle : (trigger_deployment 5 50 3 (control 4)).0.worker.queue ≡ 5 ∷ []
unfolding trigger_deployment create_deployment insert_row enqueue holds_lane
trigger_idle = refl
