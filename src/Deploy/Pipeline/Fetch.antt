-- ===== src/Deploy/Pipeline/Fetch.antt =====
-- The stages of api/internal/deploy/pipeline.go up to the compose file: the deploy key, the clone or
-- its stand-ins, the rollback's commit and the build adapter.
use vac.Compose.Strings.{has_prefix}
use vac.Prelude.{
  none, some, Option, String, Text, ℕ, Bool, if◌then◌else◌, [], any, not, ◌==◌, ascii, true,
  strip_prefix, false, ◌∷◌,
}
use vac.Deploy.Pipeline.{
  answered, missing, refused, message, from_image, from_git, from_template, World, PipelineApp,
  Answer, Source, message, answered, pulled, cloned, fetched, from_template, from_image, from_git,
}
use vac.Deploy.Pipeline.Steps.{
  returns, raised, Exec, Outcome, pure, fail, try, attempt, wrap, bounded, local, call, ask, ◌>>=◌,
  ◌>>◌, write, raised,
}
use vac.Deploy.Schema.{Deployment}
use vac.Deploy.Table.{set_deployment_commit, set_deployment_compose_hash}
use text.Mathlib.Text.{◌==◌ as str_eq}

abbrev has_colon : Text → Bool
has_colon s = any (λ c. c == b':') s

unfoldable pub is_ssh_repo_url : Text → Bool
is_ssh_repo_url u =
    if has_prefix u (ascii "ssh://")
    then true
    else elim (strip_prefix (ascii "git@") u) [ none ↦ false | some rest ↦ has_colon rest ]

-- The commit that a rollback is pinned to, "" where there is none.
unfoldable pub rollback_target_sha : Deployment → String
rollback_target_sha d = elim d.commit_sha [
  | none ↦ ""
  | some sha ↦ if str_eq d.triggered_by "rollback" then sha else ""
]

module _ (w : World) where
  -- Keys.Get, and Keys.Mint where the app has no key.
  abbrev pub key_of : Answer Text → Exec Text
  key_of (answered k) = pure k
  key_of missing = ask w.key_mint
  key_of (refused text) = fail (message text)

  unfoldable pub materialise_key : PipelineApp → Exec Text
  unfolding is_ssh_repo_url pure
  materialise_key app =
      if not (is_ssh_repo_url app.git_url)
      then pure []
      else do got ← bounded (pure w.key_get); key_of got; ask w.key_open; local w.key_file

  unfoldable pub clone_or_pull : Exec Text
  unfolding pure
  clone_or_pull =
      if w.has_clone
      then call pulled w.git_pull
      else do wrap "pipeline: mkdir workdir: " (local w.mkdir); call cloned w.git_clone

  abbrev pub materialize : Option (Answer Text) → Option Text → Exec Text
  materialize none id =
      fail (message "pipeline: app is template-sourced but no template registry is configured")
  materialize (some a) (some (c ∷ cs)) = do
    wrap "pipeline: mkdir workdir: " (local w.mkdir)
    wrap "pipeline: materialize template: " (local a)
  materialize (some a) _ = fail (message "pipeline: template app has no template id")

  abbrev pub fetch_from : Source → Option Text → Exec Text
  fetch_from from_template id = materialize w.templates id
  fetch_from from_image id = wrap "pipeline: mkdir workdir: " (local w.mkdir)
  fetch_from from_git id = clone_or_pull

  unfoldable pub fetch_source : PipelineApp → Exec Text
  unfolding clone_or_pull
  fetch_source app = fetch_from app.source app.template_id

  unfoldable pub pin_rollback : Deployment → Exec Text
  unfolding rollback_target_sha
  pin_rollback d =
      let target = rollback_target_sha d in
      if str_eq target ""
      then pure []
      else wrap "rollback checkout: " (call fetched (w.fetch_commit target))

  abbrev pub save_commit : ℕ → Outcome (String × String) → Exec Unit
  save_commit id (raised e) = pure tt
  save_commit id (returns (sha, msg)) =
      if str_eq sha ""
      then pure tt
      else attempt (write (set_deployment_commit id (some sha) (some msg)))

  unfoldable pub record_commit : ℕ → Exec Unit
  unfolding pure
  record_commit id = try (ask w.head_commit) >>= save_commit id

  abbrev pub save_hash : ℕ → Answer String → Exec Unit
  save_hash id (answered hash) = attempt (write (set_deployment_compose_hash id hash))
  save_hash id _ = pure tt

  -- The build config's allow_unsafe_compose, with the compose file produced and its hash stored.
  unfoldable pub prepare_compose : ℕ → Exec Bool
  unfolding pure
  prepare_compose id = do
    allow ← local w.build_config
    local w.adapter_for
    ask w.prepare
    save_hash id w.hash_file
    pure allow
