-- ===== src/Deploy/Sweeper/Tests.antt =====
-- The window sweeper at a parked push of the third app, with the windows of Webhook/Samples.
use vac.Deploy.Table.{release_scheduled_deployment}
use vac.Deploy.Status.{scheduled}
use vac.Deploy.Sweeper.Handed.{sweep-full_queue, stranded, sweep-stranded}
use vac.Webhook.Samples.{saturday, nightly, no_zone, week}
use vac.Deploy.Samples.{by_id, control, app, row, good_row}
use vac.Deploy.Worker.{Worker, enqueue}
use vac.Webhook.Window.{Window, contains, parse_hm}
use vac.Deploy.Sweeper.{sweep, sweep_all, release_one, list_scheduled_deployments, parse_windows}
use vac.Prelude.{
  List, ℕ, Option, ◌∷◌, Bool, [], some, ◌≡◌, true, any, arith, refl, false, none, cut, atoi,
}
use vac.Deploy.Schema.{Db, holds_lane, lanes_unique, exec_found, exec}

abbrev decoded : List ℕ → Option (List Window)
decoded raw = some (nightly ∷ [])

abbrev opens : ℕ → List Window → Bool
opens now windows = vac.Webhook.Window.allows 0 no_zone week now windows

-- The parked row's app has a schedule, and nothing else waits.
abbrev shop : Db
shop = record {
  apps = record { id = 3; deploy_window = b'[' ∷ [] } ∷ app 2 ∷ [];
  rows = row 7 3 scheduled 45 none ∷ good_row ∷ [];
}

abbrev worker_with : ℕ → Worker
worker_with capacity = (control capacity).worker

abbrev swept : Db × Worker
swept = sweep decoded opens by_id saturday (shop, worker_with 4)

swept_queue : swept.1.queue ≡ 7 ∷ []
unfolding sweep sweep_all release_one list_scheduled_deployments parse_windows
    vac.Webhook.Window.allows contains parse_hm cut atoi release_scheduled_deployment exec_found
    exec holds_lane enqueue
swept_queue = refl

sweep-stranded_example :
    (lanes_unique swept.0.rows ≡ true) × (any (stranded swept.1) swept.0.rows ≡ false)
unfolding holds_lane
sweep-stranded_example = sweep-stranded decoded opens by_id saturday shop (worker_with 4) refl refl

sweep-full_queue_example :
    sweep decoded opens by_id saturday (shop, worker_with 0) ≡ (shop, worker_with 0)
unfolding holds_lane
sweep-full_queue_example =
    sweep-full_queue decoded opens by_id saturday shop (worker_with 0) refl (omega arith)
