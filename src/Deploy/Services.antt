-- ===== src/Deploy/Services.antt =====
-- api/internal/store/services.go: the statements on the services table, which is keyed on the app and
-- the service's name. Timestamps, the row's own id and the sealed access code are left out. A list of
-- rows is read in its order: ListServicesForApp's ORDER BY is that of the names.
use vac.Deploy.Status.{ServiceStatus}
use vac.Deploy.Schema.{◌>>=◌, Result, ok, err, coalesce, not_found}
use vac.Compose.Strings.{text_less}
use vac.Prelude.{
  Text, ℤ, Option, ℕ, Bool, List, some, ◌+◌, ◌==◌, if◌then◌else◌, map, none, sort, ◌&&◌, false,
  is_some, keep, ◌∷◌, not, texts_eq, [],
}

pub record Service : Type 0 where
  pub app_id : ℕ
  pub service_name : Text
  pub container_id : Option Text
  pub exposed_port : Option ℤ
  pub internal_port : Option ℤ
  pub health_path : Option Text
  pub status : ServiceStatus
  pub restart_count : ℕ
  pub last_exit_code : Option ℤ
  pub oom_killed_count : ℕ
  pub has_volumes : Bool
  pub is_private : Bool
  pub requires_auth : Bool

abbrev pub has_key : ℕ → Text → Service → Bool
has_key app_id name s = s.app_id == app_id && texts_eq s.service_name name

-- UPDATE … WHERE app_id = $1 AND service_name = $2
abbrev pub update_service : ℕ → Text → (Service → Service) → List Service → List Service
update_service app_id name f rows = map (λ s. if has_key app_id name s then f s else s) rows

abbrev pub find_service : ℕ → Text → List Service → Option Service
find_service app_id name [] = none
find_service app_id name (s ∷ ss) =
    let rest = find_service app_id name ss in if has_key app_id name s then some s else rest

-- An UPDATE of one key, with the row that it returns; no row is ErrNotFound.
unfoldable pub change_service :
    ℕ → Text → (Service → Service) → List Service → Result (Service × List Service)
change_service app_id name f rows = elim (find_service app_id name rows) [
  | none ↦ err not_found
  | some s ↦ ok (f s, update_service app_id name f rows)
]

-- A row with the column defaults.
abbrev pub fresh_service :
    ℕ → Text → Option Text → (exposed internal : Option ℤ) → ServiceStatus → Bool → Service
fresh_service app_id name container exposed internal status has_volumes = record {
  app_id = app_id;
  service_name = name;
  container_id = container;
  exposed_port = exposed;
  internal_port = internal;
  health_path = none;
  status = status;
  restart_count = 0;
  last_exit_code = none;
  oom_killed_count = 0;
  has_volumes = has_volumes;
  is_private = false;
  requires_auth = false;
}

-- INSERT … ON CONFLICT (app_id, service_name) DO UPDATE: a port that is not detected keeps the stored one.
unfoldable pub upsert_service :
    ℕ
    → Text
    → Option Text
    → (exposed internal : Option ℤ) → ServiceStatus
    → Bool
    → List Service
    → List Service
upsert_service app_id name container exposed internal status has_volumes rows =
    if is_some (find_service app_id name rows)
    then update_service app_id name
        (λ s. record s {
          container_id = container;
          exposed_port = exposed;
          internal_port = coalesce internal s.internal_port;
          status = status;
          has_volumes = has_volumes;
        })
        rows
    else fresh_service app_id name container exposed internal status has_volumes ∷ rows

unfoldable pub get_service : ℕ → Text → List Service → Result Service
get_service app_id name rows = elim (find_service app_id name rows) [
  | none ↦ err not_found
  | some s ↦ ok s
]

unfoldable pub list_services_for_app : ℕ → List Service → List Service
list_services_for_app app_id rows =
    sort (λ s t. text_less s.service_name t.service_name) (keep (λ s. s.app_id == app_id) rows)

unfoldable pub update_service_status :
    ℕ → Text → ServiceStatus → Option ℤ → List Service → Result (List Service)
update_service_status app_id name status exit_code rows =
    change_service app_id name
      (λ s. record s { status = status; last_exit_code = coalesce exit_code s.last_exit_code }) rows
    >>= λ r. ok r.1

unfoldable pub increment_service_restart : ℕ → Text → List Service → Result (ℕ × List Service)
increment_service_restart app_id name rows =
    change_service app_id name (λ s. record s { restart_count = s.restart_count + 1 }) rows >>= λ r.
    ok (r.0.restart_count, r.1)

unfoldable pub increment_service_oom :
    ℕ → Text → Option ℤ → List Service → Result (ℕ × List Service)
increment_service_oom app_id name exit_code rows =
    change_service app_id name
      (λ s. record s {
        oom_killed_count = s.oom_killed_count + 1;
        last_exit_code = coalesce exit_code s.last_exit_code;
      })
      rows
    >>= λ r. ok (r.0.oom_killed_count, r.1)

or_value {ℓ} : {A : Type ℓ} → Option A → A → A
or_value none y = y
or_value (some x) y = x

unfoldable pub set_service_config :
    ℕ
    → Text
    → (exposed internal : Option ℤ) → Option Text
    → (private auth : Option Bool) → List Service
    → Result (Service × List Service)
unfolding or_value
set_service_config app_id name exposed internal path private auth rows =
    change_service app_id name
      (λ s. record s {
        exposed_port = coalesce exposed s.exposed_port;
        internal_port = coalesce internal s.internal_port;
        health_path = coalesce path s.health_path;
        is_private = or_value private s.is_private;
        requires_auth = or_value auth s.requires_auth;
      })
      rows

unfoldable pub delete_service : ℕ → Text → List Service → Result (List Service)
delete_service app_id name rows =
    if is_some (find_service app_id name rows)
    then ok (keep (λ s. not (has_key app_id name s)) rows)
    else err not_found
