-- ===== src/Deploy/Pipeline/Gate.antt =====
-- The stages of api/internal/deploy/pipeline.go around the stack: the env file, the registry, the paths of
-- a template and the loopback probe with CheckWithRetry of healthcheck.go.
use vac.Compose.Preflight.{is_empty}
use vac.Deploy.Schema.{ok, Result, err}
use Prim.Native.String.{◌++◌ as str_append}
use vac.Prelude.{
  none, some, Bool, Text, ℤ, ◌&&◌, List, if◌then◌else◌, [], false, is_some, none, not, pos, some, ℕ,
  ◌∷◌, leb, texts_eq, suc, ◌==◌, ltb, zero,
}
use vac.Deploy.Pipeline.{
  answered, refused, message, from_image, from_template, World, PipelineApp, Answer, PsService,
  images_pulled, answered, message, logged_in, Source,
}
use vac.Deploy.Pipeline.Steps.{
  returns, raised, Exec, Outcome, pure, fail, try, attempt, wrap, bounded, local, call, ask, ◌>>=◌,
  ◌>>◌, write_services, query_services,
}
use vac.Deploy.Services.{Service, set_service_config, list_services_for_app}
use vac.Compose.Tables.{is_positive}
use vac.Deploy.Pipeline.Stack.{non_empty, first_published_port}

abbrev rows_after : Result (Service × List Service) → Result (List Service)
rows_after (ok r) = ok r.1
rows_after (err e) = err e

abbrev path_of : Text → List (Text × Text) → Text
path_of name [] = []
path_of name (p ∷ ps) = let rest = path_of name ps in if texts_eq p.0 name then p.1 else rest

module _ (w : World) where
  unfoldable pub render_env : Exec Text
  render_env = if w.has_box then ask w.render_env else pure []

  abbrev pub log_in : Answer Text → Exec Text
  log_in (answered (c ∷ cs)) =
      if not w.has_box
      then fail (message "registry credentials are set but VAC_MASTER_KEY is not configured")
      else do
        wrap "decrypt registry auth: " (local w.box_open)
        wrap "parse registry auth: " (local w.parse_auth)
        wrap "registry login: " (call logged_in w.docker_login)
  log_in (refused text) = fail (message (str_append "load registry auth: " text))
  log_in _ = pure []

  unfoldable pub registry_pull : Exec Text
  registry_pull = do
    enc ← bounded (pure w.registry_auth)
    log_in enc
    wrap "pull: " (call images_pulled w.docker_pull)

  unfoldable pub pull_from : Source → Exec Text
  unfolding registry_pull
  pull_from from_image = registry_pull
  pull_from _ = pure []

  unfoldable pub pull_images : PipelineApp → Exec Text
  unfolding pull_from
  pull_images app = pull_from app.source

  abbrev wants_path : Text → Service → Bool
  wants_path path r = not (is_some r.health_path) && is_some (non_empty path)

  unfoldable pub apply_paths : ℕ → List Service → Exec Unit
  unfolding set_service_config
  apply_paths app_id [] = pure tt
  apply_paths app_id (r ∷ rs) =
      let path = path_of r.service_name w.template_paths in
      (if wants_path path r
        then attempt (
            write_services (λ rows.
              rows_after
                (set_service_config app_id r.service_name none none (some path) none none rows)))
        else pure tt)
      >> apply_paths app_id rs

  abbrev pub apply_listed : ℕ → Outcome (List Service) → Exec Unit
  apply_listed app_id (returns rows) = apply_paths app_id rows
  apply_listed app_id (raised e) = pure tt

  unfoldable pub apply_from : Source → ℕ → Exec Unit
  unfolding apply_paths list_services_for_app
  apply_from from_template app_id =
      try (query_services (list_services_for_app app_id)) >>= apply_listed app_id
  apply_from _ app_id = pure tt

  unfoldable pub apply_template_health_paths : PipelineApp → Exec Unit
  unfolding apply_from
  apply_template_health_paths app =
      if is_some w.templates && is_some app.template_id && not (is_empty w.template_paths)
      then apply_from app.source app.id
      else pure tt

  abbrev pub is_pass : ℕ → Bool
  is_pass status = leb 200 status && ltb status 400

  abbrev is_up : Outcome ℕ → Bool
  is_up (returns status) = is_pass status
  is_up (raised e) = false

  -- Behind an attempt: the wait between two of them ends with the context.
  abbrev pub retry : (remaining : ℕ) → Outcome ℕ → (next : Exec Unit) → Exec Unit
  retry remaining r next =
      if is_up r
      then pure tt
      else if remaining == 0
      then fail (message "deploy: health check failed")
      else (bounded (pure tt) >> next)

  -- The attempts from this one on.
  unfoldable pub attempts_from : (port : ℤ) → (remaining attempt : ℕ) → Exec Unit
  attempts_from port zero attempt = fail (message "deploy: health check failed")
  attempts_from port (suc remaining) attempt =
      let next = attempts_from port remaining (suc attempt) in
      if w.is_late port attempt
      then fail (message "deploy: health check failed")
      else (try (ask (w.check port attempt)) >>= λ r. retry remaining r next)

  abbrev retries_of : ℤ → ℕ
  retries_of (pos (suc n)) = suc n
  retries_of _ = 1

  unfoldable pub check_with_retry : ℤ → Exec Unit
  unfolding attempts_from
  check_with_retry port = attempts_from port (retries_of w.health_check_retries) 1

  unfoldable pub health_check : List PsService → Exec Unit
  unfolding check_with_retry first_published_port
  health_check [] = pure tt
  health_check (s ∷ ss) =
      (if is_positive (first_published_port s)
        then wrap "health check: " (check_with_retry (first_published_port s))
        else pure tt)
      >> health_check ss
