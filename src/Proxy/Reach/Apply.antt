-- ===== src/Proxy/Reach/Apply.antt =====
-- The same of the routes of one app, whichever of the three modes it is in, and of the control route.
use vac.Proxy.{ProxyApp, Domain, Manager, Route, Caddy, IsCaddy, Edge}
use vac.Proxy.Hosts.{by_name}
use vac.Proxy.Routes.{
  RouteSpec, dial, route, wake_route, redirect_route, maintenance_route, control_route,
  desired_routes, page_of,
}
use vac.Proxy.Apply.{
  is_routable, maintain_step, suspend_step, serve_step, serve_service, attach_and_push,
  apply_loaded, apply_app, is_attached, connects, apply_mode, loaded_from,
}
use vac.Proxy.Sync.{wake_step}
use vac.Proxy.Exposure.{
  IsPublic, IsOpen, each_keeps, In-by_name, is_routable-guarded, route-exposed,
}
use vac.Compose.Preflight.{is_empty}
use vac.Deploy.Services.{Service}
use vac.Prelude.{
  Text, Bool, List, Option, [], none, some, true, false, ◌≡◌, inl, inr, In, Bool-cases, refl, ◌||◌,
}
use vac.Proxy.Reach.{push-Within, push_quietly-Within, delete_route-Within, Within}

module _ (c : Caddy) (laws : IsCaddy c) (Good : Route → Type 0) (m : Manager)
    (accept : (r : Route) → IsOpen m r → Good r) where
  maintain_step-Within :
      (html : Text) (spec : RouteSpec) (e : Edge c.State)
      → Within c laws Good e
      → Within c laws Good (maintain_step c html spec e).1
  unfolding maintain_step maintenance_route
  maintain_step-Within html spec e w =
      push-Within c laws Good spec.hostname (maintenance_route spec.id spec.hostname html) e
        (accept _ tt) w

  redirect-Good : (id host target : Text) → Good (redirect_route id host target)
  unfolding redirect_route
  redirect-Good id host target = accept _ tt

  wake-Good : (id host : Text) → Good (wake_route m id host)
  unfolding wake_route
  wake-Good id host = accept _ (inl refl, tt)

  suspend_step-Within :
      (spec : RouteSpec) (e : Edge c.State)
      → Within c laws Good e
      → Within c laws Good (suspend_step c m spec e).1
  unfolding suspend_step
  suspend_step-Within spec e w = elim (Bool-cases (is_empty spec.redirect_to)) [
    | inl y ↦ rw y (push-Within c laws Good spec.hostname _ e (wake-Good spec.id spec.hostname) w)
    | inr n ↦ rw n (
        push-Within c laws Good spec.hostname _ e
          (redirect-Good spec.id spec.hostname spec.redirect_to) w)
  ]

  pub wake_step-Within :
      (spec : RouteSpec) (e : Edge c.State)
      → Within c laws Good e
      → Within c laws Good (wake_step c m spec e).1
  unfolding wake_step
  wake_step-Within spec e w = elim (Bool-cases (is_empty spec.redirect_to)) [
    | inl y ↦ rw y (push_quietly-Within c laws Good _ e (wake-Good spec.id spec.hostname) w)
    | inr n ↦ rw n w
  ]

  pub control-Good : Good (control_route m)
  unfolding control_route
  control-Good = accept _ (inl refl, tt)

  module _ (app_id : Text) (app : ProxyApp) (services : List Service)
      (is_app : m.store.get_app app_id ≡ some app)
      (are : m.store.list_services_for_app app_id ≡ some services) where
    IsPublic-service :
        (svc : Service)
        → In svc services
        → svc.requires_auth ≡ false
        → svc.is_private ≡ false
        → IsPublic m (dial app.slug svc)
    IsPublic-service svc i free open_to_all = record {
      app_id = app_id;
      app = app;
      services = services;
      service = svc;
      is_app = is_app;
      are_services = are;
      is_service = i;
      is_dial = refl;
      no_login = free;
      not_private = open_to_all;
    }

    route-Good :
        (spec : RouteSpec) (svc : Service)
        → In svc services
        → is_routable m svc ≡ true
        → Good (route m spec.id spec.hostname svc app.slug app.rate_limit_rpm)
    route-Good spec svc i r =
        let guarded = is_routable-guarded m svc r in
        accept _
          (elim (route-exposed m spec.id spec.hostname svc app.slug app.rate_limit_rpm guarded.1) [
            | inl shut ↦ rw shut tt
            | inr free ↦ rw free.1 (inr (IsPublic-service svc i free.0 guarded.0), tt)
          ])

    attach-Within :
        (spec : RouteSpec) (svc : Service) (attached : List Text) (e : Edge c.State)
        → In svc services
        → is_routable m svc ≡ true
        → Within c laws Good e
        → Within c laws Good (attach_and_push c m app spec svc (attached, e)).1.1
    unfolding attach_and_push
    attach-Within spec svc attached e i r w =
        elim (Bool-cases (is_attached c attached svc || connects c m app svc)) [
          | inl y ↦ rw y (push-Within c laws Good spec.hostname _ e (route-Good spec svc i r) w)
          | inr n ↦ rw n w
        ]

    serve_service-Within :
        (spec : RouteSpec) (found : Option Service) (s : List Text × Edge c.State)
        → by_name spec.service services ≡ found
        → Within c laws Good s.1
        → Within c laws Good (serve_service c m app spec found s).1.1
    serve_service-Within spec none s h w = delete_route-Within c laws Good spec.id s.1 w
    serve_service-Within spec (some svc) (attached, e) h w = elim (Bool-cases (is_routable m svc)) [
      | inl y ↦ rw y (attach-Within spec svc attached e (In-by_name spec.service services h) y w)
      | inr n ↦ rw n (delete_route-Within c laws Good spec.id e w)
    ]

    serve_step-Within :
        (spec : RouteSpec) (s : List Text × Edge c.State)
        → Within c laws Good s.1
        → Within c laws Good (serve_step c m app services spec s).1.1
    unfolding serve_step
    serve_step-Within spec s w = elim (Bool-cases (is_empty spec.redirect_to)) [
      | inl y ↦ rw y (serve_service-Within spec (by_name spec.service services) s refl w)
      | inr n ↦ rw n (
          push-Within c laws Good spec.hostname _ s.1
            (redirect-Good spec.id spec.hostname spec.redirect_to) w)
    ]

    apply_mode-Within :
        (maintained suspended : Bool) (specs : List RouteSpec) (e : Edge c.State)
        → Within c laws Good e
        → Within c laws Good (apply_mode c maintained suspended m app services specs e).1
    apply_mode-Within true suspended specs e w =
        each_keeps (Within c laws Good)
          (maintain_step c (page_of app.maintenance_html m.default_html))
          (maintain_step-Within (page_of app.maintenance_html m.default_html)) specs e w
    apply_mode-Within false true specs e w =
        each_keeps (Within c laws Good) (suspend_step c m) suspend_step-Within specs e w
    apply_mode-Within false false specs e w =
        each_keeps (λ (s : List Text × Edge c.State). Within c laws Good s.1)
          (serve_step c m app services) serve_step-Within specs ([], e) w

  apply_from-Within :
      (app_id : Text) (app : Option ProxyApp) (domains : Option (List Domain))
      (services : Option (List Service)) (e : Edge c.State)
      → m.store.get_app app_id ≡ app
      → m.store.list_services_for_app app_id ≡ services
      → Within c laws Good e
      → Within c laws Good
          (loaded_from c (false, e) (λ a ds ss. apply_loaded c m a ds ss e) app domains services).1
  unfolding apply_loaded
  apply_from-Within app_id none domains services e p q w = w
  apply_from-Within app_id (some app) none services e p q w = w
  apply_from-Within app_id (some app) (some domains) none e p q w = w
  apply_from-Within app_id (some app) (some domains) (some services) e p q w =
      apply_mode-Within app_id app services p q app.maintenance_active app.suspended
        (desired_routes m app domains services) e w

  pub apply_app-Within :
      (app_id : Text) (e : Edge c.State)
      → Within c laws Good e
      → Within c laws Good (apply_app c m app_id e).1
  unfolding apply_app
  apply_app-Within app_id e w =
      apply_from-Within app_id (m.store.get_app app_id) (m.store.list_domains_by_app app_id)
        (m.store.list_services_for_app app_id) e refl refl w
