-- ===== src/Proxy/Tests.antt =====
-- A box with two apps: a shop with a public and a guarded service, and a blog in maintenance.
use vac.Compose.Strings.{decimal}
use vac.Proxy.Hosts.{assigned, auto_hosts, by_name}
use vac.Proxy.{ProxyApp, Domain, Manager, Route, Edge, Store, Config}
use vac.Proxy.Server.{list_server, list_server-IsCaddy, list_server-CarriesOut}
use vac.Proxy.Names.{route_id, auto_subdomain, auto_route_id, is_managed_route_id, alias}
use vac.Proxy.Routes.{route, dial, desired_routes, control_dial}
use vac.Proxy.Exposure.{exposed, IsOpen}
use vac.Proxy.Sync.{sync}
use vac.Proxy.Health.{wait_healthy, wanted, healthy, unhealthy, ended}
use vac.Proxy.Reach.Runs.{Call, sync_app, run_calls, run_calls-IsOpen, at_call}
use vac.Proxy.Unassigned.{sync-keeps_unassigned}
use vac.Proxy.Maintained.{maintained-never_healthy}
use vac.Deploy.Services.{Service, fresh_service}
use vac.Deploy.Status.{ServiceStatus}
use vac.Prelude.{
  List, Option, ascii, ◌∷◌, [], none, some, true, false, ◌≡◌, ◌⊎◌, inl, inr, In, refl, pos, map,
  All, ◌≢◌, arith, strip_prefix,
}

abbrev box_settings : Config
box_settings = record {
  edge_network = ascii "vac-edge";
  base_domain = ascii "box.dev";
  control_domain = [];
  control_port = pos 0;
  health_interval = pos 5;
  health_timeout = pos 30;
  health_retries = pos 3;
  wake_token = [];
  guard_enabled = true;
}

abbrev web : Service
web =
    fresh_service 1 (ascii "web") (some (ascii "c1")) none (some (pos 80)) ServiceStatus.running
      false

abbrev desk : Service
desk =
    record (fresh_service 1 (ascii "desk") (some (ascii "c2")) none (some (pos 81))
      ServiceStatus.running false) { requires_auth = true }

abbrev shop : ProxyApp
shop = record {
  id = ascii "a1";
  slug = ascii "shop";
  maintenance_active = false;
  maintenance_html = none;
  suspended = false;
  rate_limit_rpm = none;
}

abbrev parked : Domain
parked = record {
  id = ascii "d1";
  app_id = [];
  service_name = [];
  hostname = ascii "old.example";
  redirect_to = [];
}

abbrev store_of : ProxyApp → Store
store_of app = record {
  get_app = λ id. some app;
  list_apps = some (app ∷ []);
  list_domains_by_app = λ id. some [];
  list_all_domains = some (parked ∷ []);
  list_services_for_app = λ id. some (web ∷ desk ∷ []);
}

abbrev box : Manager
box = record {
  store = store_of shop;
  cfg = box_settings;
  base_domain_override = none;
  has_base_config = true;
  cert_source = none;
  network_connect = λ n k a. true;
  network_disconnect = λ n k. true;
  query_escape = λ t. t;
  default_html = ascii "<h1>Back soon</h1>";
}

abbrev empty : Edge (List Route)
empty = record { caddy = []; engine = none }

ids_after_sync :
    map (λ (r : Route). r.id) (sync list_server box (ascii "a1") empty).1.caddy
    ≡ ascii "vac-auto-a1-web" ∷ ascii "vac-auto-a1-desk" ∷ []
unfolding sync auto_hosts desired_routes auto_subdomain by_name route auto_route_id
    is_managed_route_id strip_prefix route_id
ids_after_sync = refl

abbrev calls : List Call
calls = sync_app box (ascii "a1") ∷ []

abbrev desk_route : Route
desk_route =
    route box (ascii "vac-auto-a1-desk") (ascii "desk.shop.box.dev") desk (ascii "shop") none

desk_is_guarded : exposed desk_route.handle ≡ []
unfolding route
desk_is_guarded = refl

desk_is_served : In desk_route (run_calls list_server calls empty).caddy
unfolding run_calls sync auto_hosts desired_routes auto_subdomain by_name route auto_route_id
    is_managed_route_id strip_prefix route_id
desk_is_served = inr (inl refl)

run_calls-IsOpen_example :
    In desk_route [] ⊎ ((k : Call) × (In k calls × IsOpen (at_call k) desk_route))
run_calls-IsOpen_example =
    run_calls-IsOpen list_server list_server-IsCaddy calls empty desk_route desk_is_served

-- A route of a domain that was taken from the shop.
abbrev stale : Route
stale = record { id = route_id (ascii "d1"); host = ascii "old.example"; handle = [] }

parked_lost : assigned parked ≡ false
unfolding assigned
parked_lost = refl

none_listed :
    (ds : List Domain)
    → ◌≡◌ {A = Option (List Domain)} (some []) (some ds)
    → All (λ k. k.id ≡ parked.id → k ≡ parked) ds
none_listed [] q = tt
none_listed (d ∷ ds) q = absurd cc

sync-keeps_unassigned_example :
    In stale
      (sync list_server box (ascii "a1") (record { caddy = stale ∷ []; engine = none })).1.caddy
sync-keeps_unassigned_example =
    sync-keeps_unassigned list_server list_server-IsCaddy box (ascii "a1")
      (record { caddy = stale ∷ []; engine = none }) parked (parked ∷ []) stale (stale ∷ [])
      parked_lost refl (inl refl) (λ ds q. none_listed ds q) refl refl (inl refl)

abbrev under_maintenance : ProxyApp
under_maintenance = record shop { maintenance_active = true }

abbrev busy_box : Manager
busy_box = record box { store = store_of under_maintenance }

gate_asks : In (dial (ascii "shop") web) (
    wanted
      (ascii "shop")
      (web ∷ desk ∷ [])
      (desired_routes busy_box under_maintenance [] (web ∷ desk ∷ [])))
unfolding wanted auto_hosts desired_routes auto_subdomain by_name route auto_route_id
    is_managed_route_id strip_prefix route_id
gate_asks = inl refl

web_elsewhere : dial (ascii "shop") web ≢ control_dial busy_box
unfolding dial control_dial alias decimal
web_elsewhere h = ground arith

maintained-never_healthy_example :
    (wait_healthy list_server
        (λ n. false)
        (λ n. false)
        (λ n. (sync list_server busy_box (ascii "a1") empty).1.caddy)
        busy_box
        (ascii "a1")
      ≡ unhealthy)
    ⊎ (wait_healthy list_server
          (λ n. false)
          (λ n. false)
          (λ n. (sync list_server busy_box (ascii "a1") empty).1.caddy)
          busy_box
          (ascii "a1")
        ≡ ended)
maintained-never_healthy_example =
    maintained-never_healthy list_server list_server-IsCaddy busy_box (ascii "a1") under_maintenance
      [] (web ∷ desk ∷ []) empty (dial (ascii "shop") web) (λ n. false) (λ n. false)
      (λ n. (sync list_server busy_box (ascii "a1") empty).1.caddy) list_server-CarriesOut refl refl
      refl refl gate_asks web_elsewhere (λ x i. elim i [ ]) (λ n. refl)

-- Out of maintenance the same gate opens.
opens :
    wait_healthy list_server
      (λ n. false)
      (λ n. false)
      (λ n. (sync list_server box (ascii "a1") empty).1.caddy)
      box
      (ascii "a1")
    ≡ healthy
unfolding sync wait_healthy dial auto_hosts desired_routes auto_subdomain by_name route
    auto_route_id is_managed_route_id strip_prefix route_id alias decimal control_dial
opens = refl

-- A custom domain of a private service: Sync does not route it, and the gate asks for it all the same.
abbrev hidden : Service
hidden = record web { is_private = true }

abbrev to_hidden : Domain
to_hidden = record parked { app_id = ascii "a1"; service_name = ascii "web" }

abbrev hidden_box : Manager
hidden_box = record box {
  store = record (store_of shop) {
    list_domains_by_app = λ id. some (to_hidden ∷ []);
    list_all_domains = some (to_hidden ∷ []);
    list_services_for_app = λ id. some (hidden ∷ []);
  };
}

private_unhealthy :
    wait_healthy list_server
      (λ n. false)
      (λ n. false)
      (λ n. (sync list_server hidden_box (ascii "a1") empty).1.caddy)
      hidden_box
      (ascii "a1")
    ≡ unhealthy
unfolding sync wait_healthy dial auto_hosts desired_routes auto_subdomain by_name route
    auto_route_id is_managed_route_id strip_prefix route_id alias decimal control_dial assigned
private_unhealthy = refl
