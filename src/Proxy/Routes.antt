-- ===== src/Proxy/Routes.antt =====
-- api/internal/proxy/manager.go: the routes that an app should have, and how each kind is built.
use vac.Proxy.{
  ProxyApp, Domain, Manager, Route, Handler, set_headers, rewrite, reverse_proxy, forward_auth,
  static_response, rate_limit,
}
use vac.Proxy.Names.{alias, route_id, auto_route_id}
use vac.Proxy.Hosts.{assigned, auto_hosts_for_app, AutoHost}
use vac.Deploy.Services.{Service}
use vac.Compose.Strings.{decimal, trim_space}
use vac.Compose.Preflight.{is_empty}
use vac.Prelude.{
  Text, ℤ, pos, negsuc, Bool, List, Option, ascii, ◌∷◌, [], ◌++◌, ◌&&◌, if◌then◌else◌, none, some,
  map, true, false, zero, suc,
}

pub record RouteSpec : Type 0 where
  pub id : Text
  pub hostname : Text
  pub service : Text
  pub redirect_to : Text

abbrev pub spec_of : Domain → RouteSpec
spec_of d =
    if is_empty d.redirect_to
    then (record {
      id = route_id d.id;
      hostname = d.hostname;
      service = d.service_name;
      redirect_to = [];
    })
    else (record {
      id = route_id d.id;
      hostname = d.hostname;
      service = [];
      redirect_to = d.redirect_to;
    })

abbrev pub domain_specs : List Domain → List RouteSpec
domain_specs [] = []
domain_specs (d ∷ ds) = let rest = domain_specs ds in if assigned d then spec_of d ∷ rest else rest

abbrev pub auto_spec : ProxyApp → AutoHost → RouteSpec
auto_spec app h = record {
  id = auto_route_id app.id h.service_name;
  hostname = h.hostname;
  service = h.service_name;
  redirect_to = [];
}

unfoldable pub desired_routes : Manager → ProxyApp → List Domain → List Service → List RouteSpec
unfolding assigned auto_hosts_for_app
desired_routes m app domains services =
    domain_specs domains ++ map (auto_spec app) (auto_hosts_for_app m app services)

unfoldable pub redirect_route : (id hostname target : Text) → Route
redirect_route id hostname target = record {
  id = id;
  host = hostname;
  handle =
      static_response 308
        ((ascii "Location", ascii "https://" ++ (target ++ ascii "{http.request.uri}")) ∷ []) []
      ∷ [];
}

unfoldable pub maintenance_route : (id hostname html : Text) → Route
maintenance_route id hostname html = record {
  id = id;
  host = hostname;
  handle =
      static_response 503
        ((ascii "Content-Type", ascii "text/html; charset=utf-8")
          ∷ (ascii "Retry-After", ascii "120")
          ∷ [])
        html
      ∷ [];
}

-- maintenance.Render
abbrev pub page_of : Option Text → (default_html : Text) → Text
page_of none default_html = default_html
page_of (some html) default_html = if is_empty (trim_space html) then default_html else html

abbrev pub above_zero : ℤ → Bool
above_zero (pos zero) = false
above_zero (pos (suc n)) = true
above_zero (negsuc n) = false

unfoldable pub control_dial : Manager → Text
control_dial m =
    ascii "vac-api:"
    ++ decimal (if above_zero m.cfg.control_port then m.cfg.control_port else pos 9393)

abbrev pub wake_headers : Manager → List (Text × Text)
wake_headers m =
    (ascii "X-Vac-Wake-Host", ascii "{http.request.host}")
    ∷ (ascii "X-Vac-Wake-Uri", ascii "{http.request.orig_uri}")
    ∷ (if is_empty m.cfg.wake_token then [] else (ascii "X-Caddy-Ask-Token", m.cfg.wake_token) ∷ [])

unfoldable pub wake_route : Manager → (id hostname : Text) → Route
wake_route m id hostname = record {
  id = id;
  host = hostname;
  handle =
      set_headers (wake_headers m)
      ∷ rewrite (ascii "/__vac_wake")
      ∷ reverse_proxy (control_dial m) none
      ∷ [];
}

abbrev pub verify_uri : Manager → Text
verify_uri m =
    if is_empty m.cfg.wake_token
    then ascii "/__vac_guard"
    else ascii "/__vac_guard" ++ (ascii "?t=" ++ m.query_escape m.cfg.wake_token)

unfoldable pub guard_handlers : Manager → List Handler
guard_handlers m =
    set_headers (
      (ascii "X-Vac-Guard-Host", ascii "{http.request.host}")
      ∷ (ascii "X-Vac-Guard-Uri", ascii "{http.request.orig_uri}")
      ∷ [])
    ∷ forward_auth (control_dial m) (verify_uri m)
        ((ascii "X-Vac-User", ascii "{http.reverse_proxy.header.X-Vac-User}") ∷ [])
    ∷ []

abbrev pub port_or : Option ℤ → ℤ
port_or none = pos 0
port_or (some p) = p

unfoldable pub dial : (slug : Text) → Service → Text
dial slug svc = alias slug svc.service_name ++ (ascii ":" ++ decimal (port_or svc.internal_port))

abbrev pub check_path_of : Option Text → Text
check_path_of none = ascii "/"
check_path_of (some []) = ascii "/"
check_path_of (some (c ∷ cs)) = c ∷ cs

abbrev pub limit_handlers : (id : Text) → Option ℤ → List Handler
limit_handlers id none = []
limit_handlers id (some rpm) = if above_zero rpm then rate_limit id rpm ∷ [] else []

unfoldable pub route : Manager → (id hostname : Text) → Service → (slug : Text) → Option ℤ → Route
unfolding guard_handlers
route m id hostname svc slug rpm = record {
  id = id;
  host = hostname;
  handle =
      limit_handlers id rpm
      ++ ((if svc.requires_auth && m.cfg.guard_enabled then guard_handlers m else [])
          ++ (reverse_proxy (dial slug svc) (
                some (record {
                  check_path = check_path_of svc.health_path;
                  interval = m.cfg.health_interval;
                  timeout = m.cfg.health_timeout;
                }))
              ∷ []));
}

unfoldable pub control_route : Manager → Route
control_route m = record {
  id = ascii "vac-control-route";
  host = m.cfg.control_domain;
  handle =
      reverse_proxy (control_dial m) (
        some (record {
          check_path = ascii "/health";
          interval = m.cfg.health_interval;
          timeout = m.cfg.health_timeout;
        }))
      ∷ [];
}
