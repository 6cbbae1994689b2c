-- ===== src/Deploy/Pipeline/Closes.antt =====
-- The body of a run of api/internal/deploy/pipeline.go, from its last stage to its first.
use vac.Prelude.{ℕ, Bool, Text, none, Option, String, refl, List, ◌≡◌, true, some}
use vac.Deploy.Pipeline.{World, PipelineApp, PsService, Router}
use vac.Deploy.Pipeline.Steps.{Outcome, returns, raised}
use vac.Deploy.Pipeline.Stack.{Verdict, passed, blocked}
use vac.Deploy.Pipeline.Stays.{
  stays_rules, Stays-set_app_status, Stays-attempt, Stays-wrap, Stays-call, Stays-ask, Stays-try,
}
use vac.Deploy.Pipeline.Stages.{
  Stays-mark_each_degraded, Stays-materialise_key, Stays-render_env, Stays-upsert_services,
  Stays-apply_template_health_paths, Stays-fetch_source, Stays-health_check, Stays-pull_images,
  Stays-pin_rollback, Stays-record_commit, Stays-prepare_compose, Stays-preflight,
}
use vac.Deploy.Pipeline.Ends.{
  Closes, Closes-bind, Closes-set_status, Closes-finish, Calm, Calm-attempt, Calm-then,
  Calm-note_call,
}
use vac.Deploy.Pipeline.Lifecycle.{to_clone, to_build, to_deploy, to_check, to_serve, to_error}
use vac.Deploy.Pipeline.Deploy.{
  block, complete, conclude, gate, route, bring_up, build, decide, body,
  mark_http_services_degraded,
}
use vac.Deploy.Schema.{in_flight, Deployment}
use vac.Deploy.Status.{queued, cloning, building, deploying, health_checking, DeploymentStatus}
use vac.Compose.{Fields}

module _ {id : ℕ} {may_end : Bool} (w : World) (app : PipelineApp) where
  Calm-mark_http_services_degraded : Calm id may_end (mark_http_services_degraded w id app)
  unfolding mark_http_services_degraded
  Calm-mark_http_services_degraded = Calm-attempt _ (search (stays_rules, Stays-mark_each_degraded))

  pub Closes-block :
      (st : DeploymentStatus) (text : String)
      → in_flight st ≡ true
      → Closes id may_end st (block w id app text)
  unfolding block
  Closes-block st text i = Closes-finish id may_end w app st _ (some text) _ i (to_error i) refl (
      Calm-then _ _ (Calm-attempt _ (Stays-set_app_status _))
        (Calm-then _ _ (Calm-mark_http_services_degraded) (Calm-note_call _)))

  pub Closes-complete : Closes id may_end health_checking (complete w id app)
  unfolding complete in_flight
  Closes-complete =
      Closes-finish id may_end w app health_checking _ none _ refl to_serve refl
        (Calm-then _ _ (Calm-attempt _ (Stays-set_app_status _)) (Calm-note_call _))

  Closes-conclude : (r : Outcome Text) → Closes id may_end health_checking (conclude w id app r)
  unfolding in_flight
  Closes-conclude (returns a) = Closes-complete
  Closes-conclude (raised e) = Closes-block health_checking _ refl

module _ {id : ℕ} {may_end : Bool} (unmarshal : Text → Option Fields) (w : World)
    (app : PipelineApp) where
  Closes-gate :
      (r : Option Router) (services : List PsService)
      → Closes id may_end health_checking (gate w id app r services)
  unfolding in_flight
  Closes-gate none services =
      Closes-bind health_checking _ _ refl (Stays-health_check w services)
        (λ _. Closes-complete w app)
  Closes-gate (some r) services =
      Closes-bind health_checking _ _ refl (Stays-attempt _ (Stays-call _ _)) (λ _.
        Closes-bind health_checking _ _ refl (Stays-try _ (Stays-call _ _)) (Closes-conclude w app))

  Closes-route : Closes id may_end deploying (route unmarshal w id app)
  unfolding route in_flight
  Closes-route = Closes-set_status w app deploying health_checking _ refl to_check (
      Closes-bind health_checking _ _ refl (Stays-wrap _ _ (Stays-ask _)) (λ services.
        Closes-bind health_checking _ _ refl (Stays-upsert_services w unmarshal app.id services)
          (λ _.
            Closes-bind health_checking _ _ refl (Stays-apply_template_health_paths w app)
              (λ _. Closes-gate w.router services))))

  Closes-bring_up : Closes id may_end building (bring_up unmarshal w id app)
  unfolding bring_up in_flight
  Closes-bring_up = Closes-set_status w app building deploying _ refl to_deploy (
      Closes-bind deploying _ _ refl (Stays-attempt _ (Stays-set_app_status _))
        (λ _. Closes-bind deploying _ _ refl (Stays-wrap _ _ (Stays-call _ _)) (λ _. Closes-route)))

  Closes-build : Closes id may_end cloning (build unmarshal w id app)
  unfolding build in_flight
  Closes-build = Closes-bind cloning _ _ refl (Stays-render_env w) (λ _.
      Closes-set_status w app cloning building _ refl to_build (
        Closes-bind building _ _ refl (Stays-wrap _ _ (Stays-call _ _))
          (λ _. Closes-bind building _ _ refl (Stays-pull_images w app) (λ _. Closes-bring_up))))

  Closes-decide : (v : Verdict) → Closes id may_end cloning (decide unmarshal w id app v)
  unfolding in_flight
  Closes-decide passed = Closes-build
  Closes-decide (blocked text) = Closes-block w app cloning text refl

  pub Closes-body : (d : Deployment) → Closes id may_end queued (body unmarshal w id app d)
  unfolding body in_flight
  Closes-body d = Closes-set_status w app queued cloning _ refl to_clone (
      Closes-bind cloning _ _ refl (Stays-materialise_key w app) (λ _.
        Closes-bind cloning _ _ refl (Stays-fetch_source w app) (λ _.
          Closes-bind cloning _ _ refl (Stays-pin_rollback w d) (λ _.
            Closes-bind cloning _ _ refl (Stays-record_commit w) (λ _.
              Closes-bind cloning _ _ refl (Stays-prepare_compose w) (λ allow.
                Closes-bind cloning _ _ refl (Stays-preflight w unmarshal allow) Closes-decide))))))
