-- ===== src/Deploy/Samples.antt =====
-- Tables for the tests: three apps, of which the first has a queued and the second a parked row
-- ahead of a settled one, and what statements make of them; a worker whose queue has a given room.
use vac.Deploy.Table.{fresh}
use vac.Deploy.Status.{
  DeploymentStatus, pending_approval, queued, running, scheduled, canceled, ServiceStatus,
}
use vac.Deploy.Handlers.{Control}
use vac.Prelude.{ℕ, Bool, ◌∷◌, Option, [], ltb, none, some, String}
use vac.Deploy.Schema.{Db, Deployment, App}

abbrev pub row : (id app_id : ℕ) → DeploymentStatus → (at : ℕ) → Option String → Deployment
row id app_id status at sha = record (fresh id app_id at status "push" none) { commit_sha = sha }

abbrev pub parked_row : Deployment
parked_row = row 4 2 pending_approval 40 none

abbrev pub queued_row : Deployment
queued_row = row 3 1 queued 30 none

abbrev pub good_row : Deployment
good_row = row 2 2 running 20 (some "abc")

abbrev pub old_row : Deployment
old_row = row 1 1 DeploymentStatus.error 10 (some "def")

abbrev pub app : ℕ → App
app id = record { id = id; deploy_window = [] }

abbrev pub table : Db
table = record {
  apps = app 1 ∷ app 2 ∷ app 3 ∷ [];
  rows = parked_row ∷ queued_row ∷ good_row ∷ old_row ∷ [];
}

abbrev pub by_id : ℕ → ℕ → Bool
by_id a b = ltb a b

abbrev pub control : (capacity : ℕ) → Control
control capacity = record {
  db = table;
  worker = record {
    queue = [];
    capacity = capacity;
    concurrency = 1;
    busy = 0;
    inflight = [];
    published = 0;
  };
  services = [];
  app_status = λ a. ServiceStatus.created;
}

abbrev pub approved_row : Deployment
approved_row = record parked_row { status = queued }

abbrev pub approved_table : Db
approved_table = record table { rows = approved_row ∷ queued_row ∷ good_row ∷ old_row ∷ [] }

abbrev pub made_row : Deployment
made_row = fresh 5 3 50 queued "push" none

abbrev pub made_table : Db
made_table = record table { rows = made_row ∷ table.rows }

abbrev pub cancelled_table : Db
cancelled_table = record table {
  rows =
      parked_row
      ∷ record queued_row { status = canceled; error = none; finished_at = some 50 }
      ∷ good_row
      ∷ old_row
      ∷ [];
}

abbrev pub parked_table : Db
parked_table = record table { rows = row 7 3 scheduled 45 none ∷ table.rows }

abbrev pub released_table : Db
released_table = record table { rows = row 7 3 queued 45 none ∷ table.rows }

-- The table before the pushes.
abbrev pub idle_table : Db
idle_table = record table { rows = good_row ∷ old_row ∷ [] }

abbrev pub rollback : Deployment
rollback = record (fresh 8 2 50 queued "rollback" (some 2)) { commit_sha = some "abc" }

abbrev pub rollback_table : Db
rollback_table = record idle_table { rows = rollback ∷ idle_table.rows }
