-- ===== src/Proxy/Sync.antt =====
-- api/internal/proxy/manager.go: the methods that change Caddy. They hold routeMu from start to end, so
-- that they run one after the other.
use vac.Proxy.{ProxyApp, Domain, Manager, Route, Caddy, Edge}
use vac.Proxy.Names.{control_route_id, route_id, auto_route_id, is_managed_route_id}
use vac.Proxy.Hosts.{auto_hosts, AutoHost}
use vac.Proxy.Routes.{RouteSpec, desired_routes, wake_route, control_route}
use vac.Deploy.Services.{Service}
use vac.Compose.Preflight.{is_empty}
use vac.Prelude.{
  Text, Bool, List, Option, ◌&&◌, ◌||◌, if◌then◌else◌, none, some, not, true, false, any, texts_eq,
  ◌⊎◌, inl, inr,
}
use vac.Proxy.Apply.{
  each, has_container, container_of, push_quietly, delete_route, drop_route, ensure_base_config,
  push_certs, loaded, apply_app,
}

module _ (c : Caddy) where
  abbrev pub is_backed : List Domain → List AutoHost → Text → Bool
  is_backed domains hosts id =
      any (λ d. texts_eq (route_id d.id) id) domains
      || any (λ h. texts_eq (auto_route_id h.app_id h.service_name) id) hosts

  unfoldable pub prune_step :
      List Domain → List AutoHost → Route → Edge c.State → Bool × Edge c.State
  unfolding delete_route
  prune_step domains hosts r e =
      if not (is_managed_route_id r.id) || is_backed domains hosts r.id
      then (true, e)
      else delete_route c r.id e

  abbrev pub prune_listed :
      List Domain → List AutoHost → Text ⊎ List Route → Edge c.State → Bool × Edge c.State
  prune_listed domains hosts (inl _) e = (false, e)
  prune_listed domains hosts (inr rs) e = each (prune_step domains hosts) rs e

  abbrev pub prune_from :
      Option (List Domain)
      → Option (List AutoHost)
      → Text ⊎ List Route
      → Edge c.State
      → Bool × Edge c.State
  prune_from none hosts answer e = (false, e)
  prune_from (some domains) none answer e = (false, e)
  prune_from (some domains) (some hosts) answer e = prune_listed domains hosts answer e

  unfoldable pub prune_orphans : Manager → Edge c.State → Bool × Edge c.State
  unfolding each prune_step
  prune_orphans m e = prune_from m.store.list_all_domains (auto_hosts m) (c.routes e.caddy) e

  unfoldable pub apply_control_route : Manager → Edge c.State → Bool × Edge c.State
  unfolding push_quietly delete_route
  apply_control_route m e =
      if is_empty m.cfg.control_domain
      then drop_route c control_route_id e
      else push_quietly c (control_route m) e

  -- The control route, the prune and the certificates, behind the routes of the apps.
  abbrev pub finish_sync : Manager → Bool × Edge c.State → Bool × Edge c.State
  finish_sync m applied =
      let control = apply_control_route m applied.1 in
      let pruned = prune_orphans m control.1 in
      let certs = push_certs c m pruned.1 in
      (applied.0 && (control.0 && (pruned.0 && certs.0)), certs.1)

  unfoldable pub sync : Manager → Text → Edge c.State → Bool × Edge c.State
  unfolding apply_app apply_control_route prune_orphans push_certs ensure_base_config
  sync m app_id e = finish_sync m (apply_app c m app_id (ensure_base_config c m e))

  unfoldable pub sync_certs : Manager → Edge c.State → Bool × Edge c.State
  unfolding push_certs ensure_base_config
  sync_certs m e = push_certs c m (ensure_base_config c m e)

  -- `store` is what SetAppMaintenanceActive leaves, or `none` if it fails.
  unfoldable pub maintain_on : Option Manager → Text → Edge c.State → Bool × Edge c.State
  unfolding sync
  maintain_on none app_id e = (false, e)
  maintain_on (some m) app_id e = sync m app_id e

  -- The answer of ClearAppMaintenanceActiveIfManualOff, with what it leaves.
  unfoldable pub maintain_off : Option (Bool × Manager) → Text → Edge c.State → Bool × Edge c.State
  unfolding sync
  maintain_off none app_id e = (false, e)
  maintain_off (some (cleared, m)) app_id e = if cleared then sync m app_id e else (true, e)

  -- Whether a container, if the service has one, leaves the network.
  abbrev pub detach_step : Manager → Service → Edge c.State → Bool × Edge c.State
  detach_step m svc e = (
    not (has_container svc.container_id)
        || m.network_disconnect m.cfg.edge_network (container_of svc.container_id),
    e,
  )

  unfoldable pub torn_down :
      Manager → ProxyApp → List Domain → List Service → Edge c.State → Bool × Edge c.State
  unfolding each delete_route
  torn_down m app domains services e =
      each (detach_step m) services
        (each (λ spec. drop_route c spec.id) (desired_routes m app domains services) e).1

  unfoldable pub teardown : Manager → Text → Edge c.State → Bool × Edge c.State
  unfolding torn_down
  teardown m app_id e =
      loaded c m app_id (false, e) (λ app domains services. torn_down m app domains services e)

  unfoldable pub wake_step : Manager → RouteSpec → Edge c.State → Bool × Edge c.State
  unfolding push_quietly
  wake_step m spec e =
      if is_empty spec.redirect_to
      then push_quietly c (wake_route m spec.id spec.hostname) e
      else (true, e)

  unfoldable pub woken_routes :
      Manager → ProxyApp → List Domain → List Service → Edge c.State → Bool × Edge c.State
  unfolding each wake_step
  woken_routes m app domains services e =
      let woken = each (wake_step m) (desired_routes m app domains services) e in
      let detached = each (detach_step m) services woken.1 in (woken.0 && detached.0, detached.1)

  unfoldable pub install_wake_routes : Manager → Text → Edge c.State → Bool × Edge c.State
  unfolding woken_routes ensure_base_config
  install_wake_routes m app_id e0 =
      let e = ensure_base_config c m e0 in
      loaded c m app_id (false, e) (λ app domains services. woken_routes m app domains services e)

  unfoldable pub reconcile_apps : Manager → List ProxyApp → Edge c.State → Bool × Edge c.State
  unfolding each apply_app
  reconcile_apps m apps e = each (λ app. apply_app c m app.id) apps e

  abbrev pub reconcile_from : Manager → Option (List ProxyApp) → Edge c.State → Bool × Edge c.State
  reconcile_from m none e = (false, e)
  reconcile_from m (some apps) e = finish_sync m (reconcile_apps m apps e)

  unfoldable pub reconcile : Manager → Edge c.State → Bool × Edge c.State
  unfolding reconcile_apps apply_control_route prune_orphans push_certs ensure_base_config
  reconcile m e = reconcile_from m m.store.list_apps (ensure_base_config c m e)
