-- ===== src/Deploy/Pipeline/Stages.antt =====
-- The stages of api/internal/deploy/pipeline.go between two writes of a status leave the status alone.
use vac.Deploy.Status.{DeploymentStatus}
use vac.Prelude.{
  Bool, ℕ, Option, String, Text, ◌&&◌, ◌≡◌, refl, if◌then◌else◌, not, is_some, ◌∙◌, true, false,
  List, ℤ, some, ◌∷◌, suc, [], none, zero,
}
use vac.Deploy.Pipeline.{
  World, PipelineApp, Answer, PsService, answered, missing, refused, from_git, from_template,
  from_image, Source,
}
use vac.Deploy.Pipeline.Steps.{Exec, Outcome, returns, raised, write}
use vac.Deploy.Pipeline.Stays.{
  Stays-bind, Stays-then, Stays-if, Stays, stays_rules, Stays-write, Stays-fail, Stays-try,
  Stays-ask,
}
use vac.Deploy.Pipeline.Lifecycle.{IsStored-update}
use vac.Deploy.Pipeline.Fetch.{
  materialise_key, fetch_source, pin_rollback, record_commit, prepare_compose, key_of,
  clone_or_pull, fetch_from, materialize, save_commit, save_hash,
}
use vac.Deploy.Pipeline.Stack.{preflight, upsert_services, upsert_all, delete_gone}
use vac.Deploy.Pipeline.Gate.{
  render_env, pull_images, registry_pull, log_in, apply_template_health_paths, apply_paths,
  health_check, check_with_retry, attempts_from, retry, apply_from, pull_from, apply_listed,
}
use vac.Deploy.Pipeline.Deploy.{
  mark_http_services_degraded, mark_each_degraded, maintain_on, maintain_off,
}
use vac.Deploy.Services.{Service}
use vac.Deploy.Schema.{Deployment, has_id}
use vac.Deploy.Table.{set_deployment_commit, set_deployment_compose_hash, mark_deployment_started}
use vac.Compose.{Fields}

if-same :
    (b : Bool) (d f : Deployment) {st : DeploymentStatus}
    → f.status ≡ d.status
    → d.status ≡ st
    → (if b then f else d).status ≡ st
if-same true d f e h = e ∙ h
if-same false d f e h = h

module _ {id : ℕ} {may_end : Bool} where
  pub Stays-set_deployment_commit :
      (sha text : Option String) → Stays id may_end (write (set_deployment_commit id sha text))
  unfolding set_deployment_commit
  Stays-set_deployment_commit sha text = Stays-write _ (λ st db db' e i.
      IsStored-update id st st _ _ db (λ d. refl) (λ d _ h. if-same (has_id id d) d _ refl h) e i)

  pub Stays-set_deployment_compose_hash :
      (hash : String) → Stays id may_end (write (set_deployment_compose_hash id hash))
  unfolding set_deployment_compose_hash
  Stays-set_deployment_compose_hash hash = Stays-write _ (λ st db db' e i.
      IsStored-update id st st _ _ db (λ d. refl) (λ d _ h. if-same (has_id id d) d _ refl h) e i)

  pub Stays-mark_deployment_started :
      (now : ℕ) → Stays id may_end (write (mark_deployment_started now id))
  unfolding mark_deployment_started
  Stays-mark_deployment_started now = Stays-write _ (λ st db db' e i.
      IsStored-update id st st _ _ db (λ d. refl)
        (λ d _ h. if-same (has_id id d && not (is_some d.started_at)) d _ refl h) e i)

  module _ (w : World) where
    Stays-key_of : (a : Answer Text) → Stays id may_end (key_of w a)
    Stays-key_of (answered k) = search stays_rules
    Stays-key_of missing = search stays_rules
    Stays-key_of (refused text) = search stays_rules

    pub Stays-materialise_key : (app : PipelineApp) → Stays id may_end (materialise_key w app)
    unfolding materialise_key
    Stays-materialise_key app = search (stays_rules, Stays-key_of)

    Stays-materialize :
        (a : Option (Answer Text)) (name : Option Text) → Stays id may_end (materialize w a name)
    Stays-materialize none name = search stays_rules
    Stays-materialize (some a) none = search stays_rules
    Stays-materialize (some a) (some []) = search stays_rules
    Stays-materialize (some a) (some (c ∷ cs)) = search stays_rules

    Stays-clone_or_pull : Stays id may_end (clone_or_pull w)
    unfolding clone_or_pull
    Stays-clone_or_pull = search stays_rules

    Stays-fetch_from :
        (source : Source) (name : Option Text) → Stays id may_end (fetch_from w source name)
    Stays-fetch_from from_git name = Stays-clone_or_pull
    Stays-fetch_from from_template name = Stays-materialize w.templates name
    Stays-fetch_from from_image name = search stays_rules

    pub Stays-fetch_source : (app : PipelineApp) → Stays id may_end (fetch_source w app)
    unfolding fetch_source
    Stays-fetch_source app = Stays-fetch_from app.source app.template_id

    pub Stays-pin_rollback : (d : Deployment) → Stays id may_end (pin_rollback w d)
    unfolding pin_rollback
    Stays-pin_rollback d = search stays_rules

    Stays-save_commit : (r : Outcome (String × String)) → Stays id may_end (save_commit w id r)
    Stays-save_commit (raised e) = search stays_rules
    Stays-save_commit (returns (sha, text)) = search (stays_rules, Stays-set_deployment_commit)

    pub Stays-record_commit : Stays id may_end (record_commit w id)
    unfolding record_commit
    Stays-record_commit = search (stays_rules, Stays-save_commit)

    Stays-save_hash : (a : Answer String) → Stays id may_end (save_hash w id a)
    Stays-save_hash (answered hash) = search (stays_rules, Stays-set_deployment_compose_hash)
    Stays-save_hash missing = search stays_rules
    Stays-save_hash (refused text) = search stays_rules

    pub Stays-prepare_compose : Stays id may_end (prepare_compose w id)
    unfolding prepare_compose
    Stays-prepare_compose = search (stays_rules, Stays-save_hash)

    pub Stays-render_env : Stays id may_end (render_env w)
    unfolding render_env
    Stays-render_env = search stays_rules

    Stays-log_in : (a : Answer Text) → Stays id may_end (log_in w a)
    Stays-log_in (answered []) = search stays_rules
    Stays-log_in (answered (c ∷ cs)) = search stays_rules
    Stays-log_in missing = search stays_rules
    Stays-log_in (refused text) = search stays_rules

    Stays-registry_pull : Stays id may_end (registry_pull w)
    unfolding registry_pull
    Stays-registry_pull = search (stays_rules, Stays-log_in)

    Stays-pull_from : (source : Source) → Stays id may_end (pull_from w source)
    unfolding pull_from
    Stays-pull_from from_git = search stays_rules
    Stays-pull_from from_template = search stays_rules
    Stays-pull_from from_image = Stays-registry_pull

    pub Stays-pull_images : (app : PipelineApp) → Stays id may_end (pull_images w app)
    unfolding pull_images
    Stays-pull_images app = Stays-pull_from app.source

    Stays-apply_paths :
        (app_id : ℕ) (rows : List Service) → Stays id may_end (apply_paths w app_id rows)
    unfolding apply_paths
    Stays-apply_paths app_id [] = search stays_rules
    Stays-apply_paths app_id (r ∷ rs) =
        Stays-then _ _ (search stays_rules) (Stays-apply_paths app_id rs)

    Stays-apply_listed :
        (app_id : ℕ) (r : Outcome (List Service)) → Stays id may_end (apply_listed w app_id r)
    Stays-apply_listed app_id (returns rows) = Stays-apply_paths app_id rows
    Stays-apply_listed app_id (raised e) = search stays_rules

    Stays-apply_from :
        (source : Source) (app_id : ℕ) → Stays id may_end (apply_from w source app_id)
    unfolding apply_from
    Stays-apply_from from_git app_id = search stays_rules
    Stays-apply_from from_template app_id = search (stays_rules, Stays-apply_listed)
    Stays-apply_from from_image app_id = search stays_rules

    pub Stays-apply_template_health_paths :
        (app : PipelineApp) → Stays id may_end (apply_template_health_paths w app)
    unfolding apply_template_health_paths
    Stays-apply_template_health_paths app = search (stays_rules, Stays-apply_from)

    Stays-retry :
        (remaining : ℕ) (r : Outcome ℕ) (next : Exec Unit)
        → Stays id may_end next
        → Stays id may_end (retry w remaining r next)
    Stays-retry remaining r next k = search (stays_rules, Stays-then)

    Stays-attempts_from :
        (port : ℤ) (remaining attempt : ℕ)
        → Stays id may_end (attempts_from w port remaining attempt)
    unfolding attempts_from
    Stays-attempts_from port zero attempt = search stays_rules
    Stays-attempts_from port (suc remaining) attempt =
        Stays-if (w.is_late port attempt) _ _ (Stays-fail _) (
          Stays-bind _ _ (Stays-try _ (Stays-ask _))
            (λ r. Stays-retry remaining r _ (Stays-attempts_from port remaining (suc attempt))))

    Stays-check_with_retry : (port : ℤ) → Stays id may_end (check_with_retry w port)
    unfolding check_with_retry
    Stays-check_with_retry port = Stays-attempts_from port _ 1

    pub Stays-health_check :
        (services : List PsService) → Stays id may_end (health_check w services)
    unfolding health_check
    Stays-health_check [] = search stays_rules
    Stays-health_check (s ∷ ss) =
        Stays-then _ _ (search (stays_rules, Stays-check_with_retry)) (Stays-health_check ss)

    module _ (unmarshal : Text → Option Fields) where
      pub Stays-preflight : (allow : Bool) → Stays id may_end (preflight unmarshal w allow)
      unfolding preflight
      Stays-preflight allow = search stays_rules

      Stays-upsert_all :
          (app_id : ℕ) (ss : List PsService) → Stays id may_end (upsert_all unmarshal w app_id ss)
      unfolding upsert_all
      Stays-upsert_all app_id [] = search stays_rules
      Stays-upsert_all app_id (s ∷ ss) =
          Stays-then _ _ (search stays_rules) (Stays-upsert_all app_id ss)

      Stays-delete_gone :
          (app_id : ℕ) (seen : List PsService) (rows : List Service)
          → Stays id may_end (delete_gone unmarshal w app_id seen rows)
      unfolding delete_gone
      Stays-delete_gone app_id seen [] = search stays_rules
      Stays-delete_gone app_id seen (e ∷ es) =
          Stays-then _ _ (search stays_rules) (Stays-delete_gone app_id seen es)

      pub Stays-upsert_services :
          (app_id : ℕ) (ss : List PsService)
          → Stays id may_end (upsert_services unmarshal w app_id ss)
      unfolding upsert_services
      Stays-upsert_services app_id ss = search (stays_rules, Stays-upsert_all, Stays-delete_gone)

    module _ (app : PipelineApp) where
      pub Stays-mark_each_degraded :
          (rows : List Service) → Stays id may_end (mark_each_degraded w id app rows)
      unfolding mark_each_degraded
      Stays-mark_each_degraded [] = search stays_rules
      Stays-mark_each_degraded (r ∷ rs) =
          Stays-then _ _ (search stays_rules) (Stays-mark_each_degraded rs)

      pub Stays-mark_http_services_degraded :
          Stays id may_end (mark_http_services_degraded w id app)
      unfolding mark_http_services_degraded
      Stays-mark_http_services_degraded = search (stays_rules, Stays-mark_each_degraded)

      pub Stays-maintain_on : Stays id may_end (maintain_on w id app)
      unfolding maintain_on
      Stays-maintain_on = search stays_rules

      pub Stays-maintain_off : Stays id may_end (maintain_off w id app)
      unfolding maintain_off
      Stays-maintain_off = search stays_rules
