-- ===== src/Proxy/Reach.antt =====
-- What the methods of the manager keep of the routes that Caddy serves: a predicate that the routes
-- before satisfy, and each one that is pushed.
pub mod Apply
pub mod Methods
pub mod Runs
use vac.Proxy.{ProxyApp, Domain, Manager, Route, Caddy, IsCaddy, Edge, CertSource, CertKeyPair}
use vac.Proxy.Names.{is_managed_route_id, control_route_id}
use vac.Proxy.Hosts.{by_name, auto_hosts, AutoHost}
use vac.Proxy.Routes.{
  RouteSpec, dial, control_dial, route, wake_route, redirect_route, maintenance_route,
  control_route, desired_routes, page_of,
}
use vac.Proxy.Apply.{
  each, is_routable, put_route, push, push_quietly, delete_route, ensure_base_config, push_certs,
  is_missing_server, maintain_step, suspend_step, serve_step, serve_service, attach_and_push,
  apply_loaded, apply_app, is_attached, connects, apply_mode, loaded_from, drop_route,
}
use vac.Proxy.Sync.{
  prune_step, prune_orphans, apply_control_route, sync, sync_certs, teardown, wake_step,
  install_wake_routes, reconcile, reconcile_apps, is_backed, prune_listed, detach_step, finish_sync,
  prune_from, reconcile_from, torn_down, woken_routes,
}
use vac.Proxy.Exposure.{
  exposed, IsPublic, Reachable, IsOpen, each_keeps, In-by_name, is_routable-guarded, route-exposed,
}
use vac.Compose.Preflight.{is_empty}
use vac.Deploy.Services.{Service}
use vac.Prelude.{
  Text, Bool, List, Option, ◌∷◌, [], ◌++◌, none, some, true, false, ◌≡◌, ◌⊎◌, inl, inr, In, All,
  Bool-cases, refl, arith, ℤ, subst, sym, Option-cases, ◌&&◌, ◌||◌, not,
}

module _ (c : Caddy) (laws : IsCaddy c) (Good : Route → Type 0) where
  abbrev pub Within : Edge c.State → Type 0
  Within e = (x : Route) → In x (c.served e.caddy) → Good x

  put_route-keeps :
      (r : Route) (s : c.State)
      → Good r
      → ((x : Route) → In x (c.served s) → Good x)
      → (x : Route) → In x (c.served (put_route c r s).1)
      → Good x
  unfolding put_route
  put_route-keeps r s good w x i = elim (laws.post_adds r (c.delete_id r.id s).1 x i) [
    | inl old ↦ w x (laws.delete_only r.id s x old)
    | inr e ↦ subst Good (sym e) good
  ]

  pub push-Within :
      (host : Text) (r : Route) (e : Edge c.State) → Good r → Within e → Within (push c host r e).1
  unfolding push
  push-Within host r e good w = put_route-keeps r e.caddy good w

  pub push_quietly-Within :
      (r : Route) (e : Edge c.State) → Good r → Within e → Within (push_quietly c r e).1
  unfolding push_quietly
  push_quietly-Within r e good w = put_route-keeps r e.caddy good w

  pub delete_route-Within :
      (id : Text) (e : Edge c.State) → Within e → Within (delete_route c id e).1
  unfolding delete_route
  delete_route-Within id e w x i = w x (laws.delete_only id e.caddy x i)

  pub ensure-Within :
      (m : Manager) (e : Edge c.State) → Within e → Within (ensure_base_config c m e)
  unfolding ensure_base_config
  ensure-Within m e w =
      elim (Bool-cases (m.has_base_config && is_missing_server c (c.routes e.caddy))) [
        | inl y ↦ rw y (λ x i. w x (laws.load_only e.caddy x i))
        | inr n ↦ rw n w
      ]

  pub certs-Within :
      (source : Option CertSource) (m : Manager) (e : Edge c.State)
      → m.cert_source ≡ source
      → Within e
      → Within (push_certs c m e).1
  unfolding push_certs
  certs-Within none m e h w = rw h w
  certs-Within (some source) m e h w = elim (Option-cases source.list_uploaded_certs) [
    | inl n ↦ rw (h, n) w
    | inr (rows, y) ↦ rw (h, y) (λ x i. w x (laws.certs_only _ e.caddy x i))
  ]

  prune_step-Within :
      (domains : List Domain) (hosts : List AutoHost) (r : Route) (e : Edge c.State)
      → Within e
      → Within (prune_step c domains hosts r e).1
  unfolding prune_step
  prune_step-Within domains hosts r e w =
      elim (Bool-cases (not (is_managed_route_id r.id) || is_backed c domains hosts r.id)) [
        | inl y ↦ rw y w
        | inr n ↦ rw n (delete_route-Within r.id e w)
      ]

  prune_listed-Within :
      (domains : List Domain) (hosts : List AutoHost) (answer : Text ⊎ List Route)
      (e : Edge c.State)
      → Within e
      → Within (prune_listed c domains hosts answer e).1
  prune_listed-Within domains hosts (inl failure) e w = w
  prune_listed-Within domains hosts (inr rs) e w =
      each_keeps Within (prune_step c domains hosts) (prune_step-Within domains hosts) rs e w

  prune_from-Within :
      (domains : Option (List Domain)) (hosts : Option (List AutoHost)) (answer : Text ⊎ List Route)
      (e : Edge c.State)
      → Within e
      → Within (prune_from c domains hosts answer e).1
  prune_from-Within none hosts answer e w = w
  prune_from-Within (some domains) none answer e w = w
  prune_from-Within (some domains) (some hosts) answer e w =
      prune_listed-Within domains hosts answer e w

  pub prune-Within : (m : Manager) (e : Edge c.State) → Within e → Within (prune_orphans c m e).1
  unfolding prune_orphans
  prune-Within m e w =
      prune_from-Within m.store.list_all_domains (auto_hosts m) (c.routes e.caddy) e w

  control-Within :
      (m : Manager) (e : Edge c.State)
      → Good (control_route m)
      → Within e
      → Within (apply_control_route c m e).1
  unfolding apply_control_route
  control-Within m e good w = elim (Bool-cases (is_empty m.cfg.control_domain)) [
    | inl y ↦ rw y (delete_route-Within control_route_id e w)
    | inr n ↦ rw n (push_quietly-Within (control_route m) e good w)
  ]

  pub finish-Within :
      (m : Manager) (r : Bool × Edge c.State)
      → Good (control_route m)
      → Within r.1
      → Within (finish_sync c m r).1
  finish-Within m r good w =
      certs-Within m.cert_source m _ refl (prune-Within m _ (control-Within m r.1 good w))
