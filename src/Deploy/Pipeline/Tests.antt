-- ===== src/Deploy/Pipeline/Tests.antt =====
-- Runs of the pipeline on a table with one queued deployment: one that is served, one whose context ends
-- behind its first statements, and one that the preflight blocks.
use vac.Deploy.Pipeline.Lifecycle.{Leads}
use vac.Deploy.Pipeline.Steps.{
  query, write, write_status, set_suspended, set_app_status, note_call, write_services,
  query_services,
}
use vac.Deploy.Schema.{exec_found, exec}
use vac.Prelude.{strip_prefix}
use vac.Deploy.Table.{set_deployment_commit, set_deployment_compose_hash}
use vac.Deploy.Pipeline.Terminal.{run-settles}
use vac.Deploy.Pipeline.Rows.{run-Leads, run-ended_strands}
use vac.Deploy.Pipeline.Deploy.{run}
use vac.Deploy.Pipeline.Steps.{◌>>=◌, raised}
use vac.Deploy.Table.{get_deployment}
use vac.Prelude.{Option, Text, none, [], ascii, some, ℕ, false, true, ◌∷◌, refl, pos, ◌≡◌, ◌⊎◌}
use vac.Deploy.Pipeline.{
  World, Run, PipelineApp, Answer, answered, missing, from_git, context_ended,
}
use vac.Deploy.Pipeline.Lifecycle.{IsStored, IsAt}
use vac.Deploy.Schema.{Deployment, holds_lane, in_flight}
use vac.Deploy.Status.{
  ServiceStatus, queued, DeploymentStatus, running, health_checking, deploying, building, cloning,
}
use vac.Compose.Samples.{database}
use vac.Compose.{Fields, field, mapping, no_field}

abbrev app : PipelineApp
app = record {
  id = 1;
  source = from_git;
  template_id = none;
  git_url = ascii "https://git/app";
  mem_limit_mb = none;
  maintenance_auto = true;
}

-- A document of one service, which nothing holds against.
abbrev harmless : Text → Option Fields
harmless raw =
    some (field (ascii "services") (mapping (field (ascii "db") database no_field)) no_field)

abbrev said : Answer Text
said = answered []

abbrev world : World
world = record {
  now = 9;
  get_app = λ i. answered app;
  key_get = said;
  key_mint = said;
  key_open = said;
  key_file = said;
  templates = none;
  template_paths = [];
  mkdir = said;
  has_clone = false;
  git_pull = said;
  git_clone = said;
  fetch_commit = λ sha. said;
  head_commit = answered ("ab12", "a commit");
  build_config = answered false;
  adapter_for = said;
  prepare = said;
  hash_file = answered "h";
  docker_config = said;
  raw_compose = missing;
  has_box = true;
  render_env = said;
  docker_build = said;
  registry_auth = missing;
  box_open = said;
  parse_auth = said;
  docker_login = said;
  docker_pull = said;
  cpu_limited = false;
  resource_override = said;
  docker_up = said;
  docker_ps =
      answered
        (record { id = ascii "c1"; service = ascii "db"; state = "running"; publishers = [] } ∷ []);
  router = some (record { sync = said; wait_healthy = said });
  check = λ port attempt. answered 200;
  is_late = λ port attempt. false;
  health_check_retries = pos 3;
  maintainer = true;
}

abbrev row : Deployment
row = record {
  id = 5;
  app_id = 1;
  status = queued;
  triggered_at = 2;
  triggered_by = "manual";
  rolled_back_from = none;
  started_at = none;
  finished_at = none;
  compose_hash = none;
  commit_sha = none;
  commit_message = none;
  error = none;
}

abbrev at_first : Option ℕ → Run
at_first left = record {
  db = record { apps = []; rows = row ∷ [] };
  services = [];
  app_status = ServiceStatus.running;
  suspended = true;
  left = left;
  calls = [];
  history = [];
}

row-IsStored : IsStored 5 queued (at_first none).db
unfolding holds_lane
row-IsStored = (refl, (refl, ((λ _. refl), tt)))

run-settles_example :
    (t : DeploymentStatus) × (IsAt 5 t (run harmless world 5 (at_first none)).1.db.rows
      × ((t ≡ running) ⊎ (t ≡ DeploymentStatus.error)))
unfolding get_deployment
run-settles_example =
    run-settles 5 harmless world (at_first none) row app row-IsStored refl refl refl refl refl

run-Leads_example :
    (t : DeploymentStatus) × (Leads (run harmless world 5 (at_first (some 7))).1.history t
      × IsAt 5 t (run harmless world 5 (at_first (some 7))).1.db.rows)
run-Leads_example = run-Leads 5 harmless world (at_first (some 7)) row-IsStored refl

served :
    (run harmless world 5 (at_first none)).1.history
    ≡ running ∷ health_checking ∷ deploying ∷ building ∷ cloning ∷ []
unfolding run ◌>>=◌ query write exec_found exec holds_lane write_status set_suspended set_app_status
    note_call strip_prefix set_deployment_commit set_deployment_compose_hash write_services
    query_services
served = refl

ended : (run harmless world 5 (at_first (some 7))).0 ≡ raised context_ended
unfolding run ◌>>=◌ query write exec_found exec holds_lane write_status set_suspended set_app_status
    note_call strip_prefix
ended = refl

run-ended_strands_example :
    (t : DeploymentStatus) × (IsAt 5 t (run harmless world 5 (at_first (some 7))).1.db.rows
      × (in_flight t ≡ true))
run-ended_strands_example =
    run-ended_strands 5 harmless world (at_first (some 7)) row-IsStored refl ended
