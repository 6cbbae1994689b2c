-- ===== src/Proxy/Hosts.antt =====
-- api/internal/proxy/manager.go: the host names of an app, and the lookups by host.
use vac.Proxy.{ProxyApp, Domain, Manager}
use vac.Proxy.Names.{auto_subdomain}
use vac.Deploy.Services.{Service}
use vac.DomainStatus.{equal_fold}
use vac.Compose.Strings.{to_lower, trim_space}
use vac.Compose.Preflight.{is_empty}
use vac.Prelude.{
  Text, Bool, List, Option, ◌∷◌, [], ◌++◌, ◌&&◌, not, is_some, keep, length, ltb, if◌then◌else◌,
  none, some, false, texts_eq, any,
}

-- Domain.Assigned
unfoldable pub assigned : Domain → Bool
assigned d = not (is_empty d.app_id) && not (is_empty d.service_name)

unfoldable pub base_domain : Manager → Text
base_domain m = elim m.base_domain_override [ none ↦ m.cfg.base_domain | some d ↦ d ]

pub record AutoHost : Type 0 where
  pub hostname : Text
  pub app_id : Text
  pub service_name : Text
  pub service : Service

abbrev pub is_http : Service → Bool
is_http s = is_some s.internal_port && not s.is_private

-- The auto hosts of the services that are left of the loop.
abbrev pub auto_hosts_of : ProxyApp → (base : Text) → (multi : Bool) → List Service → List AutoHost
auto_hosts_of app base multi [] = []
auto_hosts_of app base multi (s ∷ ss) =
    let rest = auto_hosts_of app base multi ss in
    let host = auto_subdomain app.slug s.service_name base multi in
    if is_empty host
    then rest
    else (record { hostname = host; app_id = app.id; service_name = s.service_name; service = s })
      ∷ rest

abbrev pub http_hosts : ProxyApp → (base : Text) → (http_services : List Service) → List AutoHost
http_hosts app base ss = auto_hosts_of app base (ltb 1 (length ss)) ss

unfoldable pub auto_hosts_for_app : Manager → ProxyApp → List Service → List AutoHost
unfolding base_domain
auto_hosts_for_app m app services =
    if is_empty (base_domain m) then [] else http_hosts app (base_domain m) (keep is_http services)

-- Fails at the first app whose services cannot be listed.
unfoldable pub auto_hosts_on : Manager → List ProxyApp → Option (List AutoHost)
unfolding auto_hosts_for_app
auto_hosts_on m [] = some []
auto_hosts_on m (app ∷ apps) =
    let rest = auto_hosts_on m apps in
    elim (m.store.list_services_for_app app.id) [
      | none ↦ none
      | some services ↦ elim rest [
        | none ↦ none
        | some hosts ↦ some (auto_hosts_for_app m app services ++ hosts)
      ]
    ]

unfoldable pub auto_hosts : Manager → Option (List AutoHost)
unfolding auto_hosts_on
auto_hosts m = elim m.store.list_apps [ none ↦ none | some apps ↦ auto_hosts_on m apps ]

abbrev pub domain_at : Text → List Domain → Option Text
domain_at host [] = none
domain_at host (d ∷ ds) =
    let rest = domain_at host ds in
    if assigned d && equal_fold d.hostname host then some d.app_id else rest

abbrev pub auto_at : Text → List AutoHost → Option Text
auto_at host [] = none
auto_at host (h ∷ hs) =
    let rest = auto_at host hs in if equal_fold h.hostname host then some h.app_id else rest

abbrev pub app_id_in : Manager → Text → Option (List Domain) → Option (Option Text)
app_id_in m host none = none
app_id_in m host (some ds) = elim (domain_at host ds) [
  | some id ↦ some (some id)
  | none ↦ elim (auto_hosts m) [ none ↦ none | some hs ↦ some (auto_at host hs) ]
]

-- The outer `none` is an error, the inner one an unknown host.
unfoldable pub app_id_for_host : Manager → Text → Option (Option Text)
unfolding auto_hosts assigned
app_id_for_host m raw =
    let host = to_lower (trim_space raw) in
    if is_empty host then some none else app_id_in m host m.store.list_all_domains

unfoldable pub is_auto_host : Manager → Text → Option Bool
unfolding auto_hosts
is_auto_host m host = elim (auto_hosts m) [
  | none ↦ none
  | some hs ↦ some (any (λ h. equal_fold h.hostname (to_lower host)) hs)
]

-- The map of the services by name: a later one of the same name wins.
unfoldable pub by_name : Text → List Service → Option Service
by_name name [] = none
by_name name (s ∷ ss) =
    let rest = by_name name ss in
    if is_some rest then rest else if texts_eq s.service_name name then some s else none

-- The guarded hosts with the app and the service behind them, the latest write of the map first.
abbrev pub guarded_autos : ProxyApp → List AutoHost → List (Text × Text × Text)
guarded_autos app [] = []
guarded_autos app (h ∷ hs) =
    let rest = guarded_autos app hs in
    if h.service.requires_auth
    then rest ++ ((to_lower h.hostname, app.id, h.service_name) ∷ [])
    else rest

abbrev pub needs_login : Option Service → Bool
needs_login none = false
needs_login (some s) = s.requires_auth

abbrev pub guarded_domains : ProxyApp → List Service → List Domain → List (Text × Text × Text)
guarded_domains app services [] = []
guarded_domains app services (d ∷ ds) =
    let rest = guarded_domains app services ds in
    if assigned d && needs_login (by_name d.service_name services)
    then rest ++ ((to_lower d.hostname, app.id, d.service_name) ∷ [])
    else rest

unfoldable pub guarded_hosts_on : Manager → List ProxyApp → Option (List (Text × Text × Text))
unfolding auto_hosts_for_app assigned by_name
guarded_hosts_on m [] = some []
guarded_hosts_on m (app ∷ apps) =
    let rest = guarded_hosts_on m apps in
    elim (m.store.list_services_for_app app.id) [
      | none ↦ none
      | some services ↦ elim (m.store.list_domains_by_app app.id) [
        | none ↦ none
        | some domains ↦ elim rest [
          | none ↦ none
          | some hosts ↦ some (
              hosts
              ++ (guarded_domains app services domains
                  ++ guarded_autos app (auto_hosts_for_app m app services)))
        ]
      ]
    ]

unfoldable pub guarded_hosts : Manager → Option (List (Text × Text × Text))
unfolding guarded_hosts_on
guarded_hosts m = elim m.store.list_apps [ none ↦ none | some apps ↦ guarded_hosts_on m apps ]

abbrev pub target_at : Text → List (Text × Text × Text) → Option (Text × Text)
target_at host [] = none
target_at host ((h, app_id, service) ∷ ts) =
    let rest = target_at host ts in if texts_eq h host then some (app_id, service) else rest

unfoldable pub guarded_service_for_host : Manager → Text → Option (Option (Text × Text))
unfolding guarded_hosts
guarded_service_for_host m host = elim (guarded_hosts m) [
  | none ↦ none
  | some ts ↦ some (target_at (to_lower (trim_space host)) ts)
]

unfoldable pub is_guarded_host : Manager → Text → Option Bool
unfolding guarded_service_for_host
is_guarded_host m host = elim (guarded_service_for_host m host) [
  | none ↦ none
  | some t ↦ some (is_some t)
]

unfoldable pub is_control_domain : Manager → Text → Bool
is_control_domain m host =
    not (is_empty m.cfg.control_domain) && equal_fold host m.cfg.control_domain
