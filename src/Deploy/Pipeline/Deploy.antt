-- ===== src/Deploy/Pipeline/Deploy.antt =====
-- Run of api/internal/deploy/pipeline.go: the stages in their order, the ways in which a run ends and the
-- deferred calls. A panic is settled by the worker and is left out.
use vac.Compose.Tables.{is_positive}
use vac.Prelude.{
  Text, ℕ, Bool, List, Option, String, if◌then◌else◌, none, some, ◌&&◌, false, ◌||◌, ℤ, ◌∷◌,
  is_some, true, [],
}
use vac.Deploy.Pipeline.{
  World, PipelineApp, Router, Failure, context_ended, message, built, started_stack,
  notified_failure, Answer, PsService, maintenance_off, maintenance_on, notified_success, answered,
  synced, waited,
}
use vac.Deploy.Pipeline.Steps.{
  Exec, Outcome, returns, raised, pure, give, try, attempt, wrap, bounded, call, ask, ◌>>=◌, ◌>>◌,
  write, write_status, set_app_status, set_suspended, query, query_services, write_services,
  note_call,
}
use vac.Deploy.Pipeline.Fetch.{
  materialise_key, fetch_source, pin_rollback, record_commit, prepare_compose,
}
use vac.Deploy.Pipeline.Gate.{render_env, pull_images, apply_template_health_paths, health_check}
use vac.Deploy.Pipeline.Stack.{Verdict, passed, blocked, preflight, upsert_services}
use vac.Deploy.Services.{Service, list_services_for_app, update_service_status}
use vac.Deploy.Table.{
  get_deployment, mark_deployment_started, mark_deployment_finished, update_deployment_status,
}
use vac.Deploy.Status.{DeploymentStatus, ServiceStatus, is_terminal}
use vac.Deploy.Schema.{Deployment}
use vac.Compose.{Fields}

module _ (w : World) (id : ℕ) (app : PipelineApp) where
  unfoldable pub finish : DeploymentStatus → Option String → Exec Unit
  unfolding mark_deployment_finished
  finish st text = write_status st (mark_deployment_finished w.now id st text)

  unfoldable pub set_status : DeploymentStatus → Exec Unit
  unfolding update_deployment_status
  set_status st =
      wrap "pipeline: set status: " (write_status st (update_deployment_status id st none))

  unfoldable pub mark_each_degraded : List Service → Exec Unit
  unfolding update_service_status
  mark_each_degraded [] = pure tt
  mark_each_degraded (r ∷ rs) =
      (if is_some r.internal_port
        then attempt (
            write_services
              (update_service_status app.id r.service_name ServiceStatus.degraded none))
        else pure tt)
      >> mark_each_degraded rs

  unfoldable pub mark_http_services_degraded : Exec Unit
  unfolding mark_each_degraded list_services_for_app
  mark_http_services_degraded =
      attempt (query_services (list_services_for_app app.id) >>= mark_each_degraded)

  -- The transparent failure: the run ends well, and the running stack keeps serving.
  unfoldable pub block : String → Exec Unit
  unfolding finish mark_http_services_degraded
  block text =
      attempt (finish DeploymentStatus.error (some text))
      >> (attempt (set_app_status ServiceStatus.degraded)
          >> (mark_http_services_degraded >> note_call notified_failure))

  unfoldable pub complete : Exec Unit
  unfolding finish
  complete =
      attempt (finish DeploymentStatus.running none)
      >> (attempt (set_app_status ServiceStatus.running) >> note_call notified_success)

  abbrev pub conclude : Outcome Text → Exec Unit
  conclude (returns _) = complete
  conclude (raised e) = block "health check failed: "

  abbrev pub gate : Option Router → List PsService → Exec Unit
  gate none services = health_check w services >> complete
  gate (some r) services =
      attempt (call synced r.sync) >> (try (call waited r.wait_healthy) >>= conclude)

  abbrev pub is_written : Answer Text → Bool
  is_written (answered (c ∷ cs)) = true
  is_written _ = false

  abbrev pub has_mem_limit : Option ℤ → Bool
  has_mem_limit none = false
  has_mem_limit (some n) = is_positive n

  -- Whether `up` merges an override with the limits of memory and CPU.
  abbrev pub is_limited : Bool
  is_limited = (has_mem_limit app.mem_limit_mb || w.cpu_limited) && is_written w.resource_override

  abbrev pub maintains : Bool
  maintains = app.maintenance_auto && w.maintainer

  unfoldable pub maintain_on : Exec Unit
  maintain_on = if maintains then attempt (bounded (note_call maintenance_on)) else pure tt

  -- The clear is detached from the deploy's context.
  unfoldable pub maintain_off : Exec Unit
  maintain_off = if maintains then note_call maintenance_off else pure tt

  abbrev text_of : Failure → String
  text_of context_ended = "context ended"
  text_of (message text) = text

  -- The deferred function that settles a run that fails.
  unfoldable pub settle_failure : Outcome Unit → Exec Unit
  unfolding finish
  settle_failure (returns _) = pure tt
  settle_failure (raised e) =
      attempt (finish DeploymentStatus.error (some (text_of e)))
      >> (attempt (set_app_status ServiceStatus.error) >> note_call notified_failure)

module _ (unmarshal : Text → Option Fields) (w : World) (id : ℕ) where
  unfoldable pub route : PipelineApp → Exec Unit
  unfolding set_status upsert_services apply_template_health_paths complete block
  route app = do
    set_status w id app DeploymentStatus.health_checking
    services ← wrap "ps: " (ask w.docker_ps)
    upsert_services unmarshal w app.id services
    apply_template_health_paths w app
    gate w id app w.router services

  unfoldable pub bring_up : PipelineApp → Exec Unit
  unfolding set_status route
  bring_up app = do
    set_status w id app DeploymentStatus.deploying
    attempt (set_app_status ServiceStatus.deploying)
    wrap "up: " (call (started_stack (is_limited w id app)) w.docker_up)
    route app

  unfoldable pub build : PipelineApp → Exec Unit
  unfolding set_status render_env pull_images bring_up
  build app = do
    render_env w
    set_status w id app DeploymentStatus.building
    wrap "build: " (call built w.docker_build)
    pull_images w app
    bring_up app

  abbrev pub decide : PipelineApp → Verdict → Exec Unit
  decide app passed = build app
  decide app (blocked text) = block w id app text

  unfoldable pub body : PipelineApp → Deployment → Exec Unit
  unfolding set_status materialise_key fetch_source pin_rollback record_commit prepare_compose
      preflight build block
  body app d = do
    set_status w id app DeploymentStatus.cloning
    materialise_key w app
    fetch_source w app
    pin_rollback w d
    record_commit w id
    allow ← prepare_compose w id
    verdict ← preflight unmarshal w allow
    decide app verdict

  -- The calls behind `mark started`: they register the deferred functions.
  unfoldable pub started : PipelineApp → Deployment → Exec Unit
  unfolding body settle_failure maintain_on maintain_off
  started app d = do
    attempt (set_app_status ServiceStatus.building)
    attempt (set_suspended false)
    maintain_on w id app
    result ← try (body app d)
    settle_failure w id app result
    maintain_off w id app
    give result

  unfoldable pub load : Deployment → Exec Unit
  unfolding mark_deployment_started started
  load d = if is_terminal d.status then pure tt else do
    app ← ask (w.get_app d.app_id)
    wrap "pipeline: mark started: " (write (mark_deployment_started w.now id))
    started app d

  unfoldable pub run : Exec Unit
  unfolding get_deployment load
  run = query (get_deployment id) >>= load
