-- ===== src/Deploy/Pipeline/Stack.antt =====
-- The stages of api/internal/deploy/pipeline.go that read the compose file: the preflight, and the services
-- of a stack that is up, with the ports of api/internal/dockercli/types.go.
use vac.Deploy.Schema.{ok}
use vac.Prelude.{
  none, some, Bool, String, Text, ℤ, ◌⊎◌, ◌&&◌, List, Option, if◌then◌else◌, true, [], false, none,
  not, pos, some, ℕ, inl, ◌∷◌, any, texts_eq, ◌||◌, inr,
}
use vac.Deploy.Pipeline.{answered, World, Answer, PsService, Publisher, answered}
use vac.Deploy.Pipeline.Steps.{
  returns, raised, Exec, Outcome, pure, try, attempt, wrap, ask, ◌>>=◌, ◌>>◌, write_services,
  query_services,
}
use vac.Deploy.Services.{Service, upsert_service, delete_service, list_services_for_app}
use vac.Compose.{Fields}
use vac.Compose.Tables.{
  Finding, is_host_escape, is_positive, Severity, severity_error, severity_warn,
}
use vac.Compose.Preflight.{
  preflight_bytes, service_exposed_ports, services_with_volumes, ParseError,
}
use vac.Deploy.Status.{map_ps_state}

abbrev first_port : (Publisher → ℤ) → List Publisher → ℤ
first_port field [] = pos 0
first_port field (p ∷ ps) =
    let rest = first_port field ps in if is_positive (field p) then field p else rest

unfoldable pub first_published_port : PsService → ℤ
first_published_port s = first_port (λ p. p.published_port) s.publishers

unfoldable pub first_target_port : PsService → ℤ
first_target_port s = first_port (λ p. p.target_port) s.publishers

unfoldable pub routable_internal_port : PsService → (compose_exposed : ℤ) → ℤ
unfolding first_published_port first_target_port
routable_internal_port s compose_exposed =
    if is_positive compose_exposed
    then compose_exposed
    else if is_positive (first_published_port s)
    then first_target_port s
    else pos 0

pub data Verdict : Type 0 where
  passed : Verdict
  blocked : String → Verdict

abbrev is_error : Severity → Bool
is_error severity_error = true
is_error severity_warn = false

abbrev pub is_blocking : Bool → Finding → Bool
is_blocking allow f = is_error f.severity && (not allow || is_host_escape f)

abbrev pub verdict_of : Bool → ParseError ⊎ List Finding → Verdict
verdict_of allow (inl e) = blocked "compose preflight failed"
verdict_of allow (inr fs) =
    if any (is_blocking allow) fs then blocked "compose preflight failed:" else passed

abbrev positive : ℤ → Option ℤ
positive p = if is_positive p then some p else none

abbrev pub non_empty : Text → Option Text
non_empty [] = none
non_empty (c ∷ cs) = some (c ∷ cs)

-- A key's entry in the map, and the zero value where it has none or the map is nil.
abbrev port_of : Text → List (Text × ℤ) → ℤ
port_of name [] = pos 0
port_of name (p ∷ ps) = let rest = port_of name ps in if texts_eq p.0 name then p.1 else rest

abbrev ports_or_none : {A E : Type 0} → E ⊎ List A → List A
ports_or_none (inl e) = []
ports_or_none (inr xs) = xs

module _ (unmarshal : Text → Option Fields) (w : World) where
  abbrev pub lint_file : Bool → Answer Text → Verdict
  lint_file allow (answered raw) = verdict_of allow (preflight_bytes unmarshal raw)
  lint_file allow _ = blocked "compose preflight failed"

  -- The resolved document, or the raw file where `docker compose config` fails.
  abbrev pub lint : Bool → Outcome Text → Verdict
  lint allow (returns resolved) = verdict_of allow (preflight_bytes unmarshal resolved)
  lint allow (raised e) = lint_file allow w.raw_compose

  unfoldable pub preflight : Bool → Exec Verdict
  unfolding preflight_bytes
  preflight allow = do resolved ← try (ask w.docker_config); pure (lint allow resolved)

  -- What the compose file declares, nothing where it cannot be read.
  unfoldable pub exposed_in : Answer Text → List (Text × ℤ)
  unfolding service_exposed_ports
  exposed_in (answered raw) = ports_or_none (service_exposed_ports unmarshal raw)
  exposed_in _ = []

  unfoldable pub with_volumes_in : Answer Text → List Text
  unfolding services_with_volumes
  with_volumes_in (answered raw) = ports_or_none (services_with_volumes unmarshal raw)
  with_volumes_in _ = []

  -- A service that `docker compose ps` lists.
  unfoldable pub upsert_listed : ℕ → PsService → Exec Unit
  unfolding routable_internal_port first_published_port upsert_service exposed_in with_volumes_in
      map_ps_state
  upsert_listed app_id s = write_services (λ rows. ok (
      upsert_service app_id s.service (non_empty s.id) (positive (first_published_port s))
        (positive (routable_internal_port s (port_of s.service (exposed_in w.raw_compose))))
        (map_ps_state s.state) (any (λ n. texts_eq n s.service) (with_volumes_in w.raw_compose))
        rows))

  unfoldable pub upsert_all : ℕ → List PsService → Exec Unit
  unfolding upsert_listed
  upsert_all app_id [] = pure tt
  upsert_all app_id (s ∷ ss) =
      wrap "upsert service: " (upsert_listed app_id s) >> upsert_all app_id ss

  unfoldable pub delete_gone : ℕ → List PsService → List Service → Exec Unit
  unfolding delete_service
  delete_gone app_id seen [] = pure tt
  delete_gone app_id seen (e ∷ es) =
      (if any (λ s. texts_eq s.service e.service_name) seen
        then pure tt
        else attempt (write_services (delete_service app_id e.service_name)))
      >> delete_gone app_id seen es

  unfoldable pub upsert_services : ℕ → List PsService → Exec Unit
  unfolding upsert_all delete_gone list_services_for_app
  upsert_services app_id services = do
    upsert_all app_id services
    existing ← query_services (list_services_for_app app_id)
    delete_gone app_id services existing
