-- ===== src/Proxy/Reach/Methods.antt =====
-- The same of each method that takes routeMu.
use vac.Proxy.{ProxyApp, Domain, Manager, Route, Caddy, IsCaddy, Edge}
use vac.Proxy.Routes.{RouteSpec, desired_routes}
use vac.Proxy.Apply.{each, ensure_base_config, apply_app, loaded_from, drop_route}
use vac.Proxy.Sync.{
  sync, sync_certs, teardown, wake_step, install_wake_routes, reconcile, reconcile_apps,
  detach_step, reconcile_from, torn_down, woken_routes,
}
use vac.Proxy.Exposure.{IsOpen, each_keeps}
use vac.Deploy.Services.{Service}
use vac.Prelude.{Text, List, Option, none, some, false, refl}
use vac.Proxy.Reach.{finish-Within, delete_route-Within, ensure-Within, certs-Within, Within}
use vac.Proxy.Reach.Apply.{wake_step-Within, control-Good, apply_app-Within}

module _ (c : Caddy) (laws : IsCaddy c) (Good : Route → Type 0) (m : Manager)
    (accept : (r : Route) → IsOpen m r → Good r) where
  pub sync-Within :
      (app_id : Text) (e : Edge c.State)
      → Within c laws Good e
      → Within c laws Good (sync c m app_id e).1
  unfolding sync
  sync-Within app_id e w =
      finish-Within c laws Good m (apply_app c m app_id (ensure_base_config c m e))
        (control-Good c laws Good m accept)
        (apply_app-Within c laws Good m accept app_id _ (ensure-Within c laws Good m e w))

  reconcile_from-Within :
      (apps : Option (List ProxyApp)) (e : Edge c.State)
      → Within c laws Good e
      → Within c laws Good (reconcile_from c m apps e).1
  unfolding reconcile_apps
  reconcile_from-Within none e w = w
  reconcile_from-Within (some apps) e w =
      finish-Within c laws Good m (reconcile_apps c m apps e) (control-Good c laws Good m accept) (
        each_keeps (Within c laws Good) (λ (app : ProxyApp). apply_app c m app.id)
          (λ app. apply_app-Within c laws Good m accept app.id) apps e w)

  pub reconcile-Within :
      (e : Edge c.State) → Within c laws Good e → Within c laws Good (reconcile c m e).1
  unfolding reconcile
  reconcile-Within e w = reconcile_from-Within m.store.list_apps _ (ensure-Within c laws Good m e w)

  pub sync_certs-Within :
      (e : Edge c.State) → Within c laws Good e → Within c laws Good (sync_certs c m e).1
  unfolding sync_certs
  sync_certs-Within e w =
      certs-Within c laws Good m.cert_source m _ refl (ensure-Within c laws Good m e w)

  detach-Within :
      (services : List Service) (e : Edge c.State)
      → Within c laws Good e
      → Within c laws Good (each (detach_step c m) services e).1
  detach-Within services e w =
      each_keeps (Within c laws Good) (detach_step c m) (λ s e' w'. w') services e w

  teardown_from-Within :
      (app : Option ProxyApp) (domains : Option (List Domain)) (services : Option (List Service))
      (e : Edge c.State)
      → Within c laws Good e
      → Within c laws Good
          (loaded_from c (false, e) (λ a ds ss. torn_down c m a ds ss e) app domains services).1
  unfolding torn_down
  teardown_from-Within none domains services e w = w
  teardown_from-Within (some app) none services e w = w
  teardown_from-Within (some app) (some domains) none e w = w
  teardown_from-Within (some app) (some domains) (some services) e w = detach-Within services _ (
      each_keeps (Within c laws Good) (λ (spec : RouteSpec). drop_route c spec.id)
        (λ spec. delete_route-Within c laws Good spec.id) (desired_routes m app domains services) e
        w)

  pub teardown-Within :
      (app_id : Text) (e : Edge c.State)
      → Within c laws Good e
      → Within c laws Good (teardown c m app_id e).1
  unfolding teardown
  teardown-Within app_id e w =
      teardown_from-Within (m.store.get_app app_id) (m.store.list_domains_by_app app_id)
        (m.store.list_services_for_app app_id) e w

  install_from-Within :
      (app : Option ProxyApp) (domains : Option (List Domain)) (services : Option (List Service))
      (e : Edge c.State)
      → Within c laws Good e
      → Within c laws Good
          (loaded_from c (false, e) (λ a ds ss. woken_routes c m a ds ss e) app domains services).1
  unfolding woken_routes
  install_from-Within none domains services e w = w
  install_from-Within (some app) none services e w = w
  install_from-Within (some app) (some domains) none e w = w
  install_from-Within (some app) (some domains) (some services) e w = detach-Within services _ (
      each_keeps (Within c laws Good) (wake_step c m) (wake_step-Within c laws Good m accept)
        (desired_routes m app domains services) e w)

  pub install-Within :
      (app_id : Text) (e : Edge c.State)
      → Within c laws Good e
      → Within c laws Good (install_wake_routes c m app_id e).1
  unfolding install_wake_routes
  install-Within app_id e w =
      install_from-Within (m.store.get_app app_id) (m.store.list_domains_by_app app_id)
        (m.store.list_services_for_app app_id) _ (ensure-Within c laws Good m e w)
