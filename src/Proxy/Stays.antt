-- ===== src/Proxy/Stays.antt =====
-- The requests of the manager leave a route alone that none of them is about.
use vac.Proxy.{ProxyApp, Manager, Route, Caddy, IsCaddy, Edge}
use vac.Proxy.Hosts.{by_name}
use vac.Proxy.Routes.{RouteSpec, maintenance_route, wake_route, redirect_route, route}
use vac.Proxy.Apply.{
  each, put_route, push, delete_route, maintain_step, suspend_step, serve_step, serve_service,
  attach_and_push, apply_mode, is_routable, is_attached, connects,
}
use vac.Compose.Preflight.{is_empty}
use vac.Deploy.Services.{Service}
use vac.Prelude.{
  Text, Bool, List, Option, ◌∷◌, [], none, some, true, false, ◌≢◌, inl, inr, In, All, Bool-cases,
  ◌||◌,
}

module _ (c : Caddy) (laws : IsCaddy c) (x : Route) where
  abbrev pub Stays : Edge c.State → Type 0
  Stays e = In x (c.served e.caddy)

  pub put_route-Stays :
      (r : Route) (s : c.State)
      → x.id ≢ r.id
      → In x (c.served s)
      → In x (c.served (put_route c r s).1)
  unfolding put_route
  put_route-Stays r s other i = laws.post_keeps r _ x (laws.delete_keeps r.id s x other i)

  push-Stays :
      (host : Text) (r : Route) (e : Edge c.State)
      → x.id ≢ r.id
      → Stays e
      → Stays (push c host r e).1
  unfolding push
  push-Stays host r e other i = put_route-Stays r e.caddy other i

  pub delete-Stays :
      (id : Text) (e : Edge c.State) → x.id ≢ id → Stays e → Stays (delete_route c id e).1
  unfolding delete_route
  delete-Stays id e other i = laws.delete_keeps id e.caddy x other i

  -- A loop whose steps are all about other routes.
  each_other {κ} :
      {S : Type 0} (P : S → Type κ) (step : RouteSpec → S → Bool × S)
      → ((spec : RouteSpec) (s : S) → x.id ≢ spec.id → P s → P (step spec s).1)
      → (specs : List RouteSpec) (s : S) → All (λ spec. x.id ≢ spec.id) specs
      → P s
      → P (each step specs s).1
  unfolding each
  each_other P step keep [] s other p = p
  each_other P step keep (spec ∷ specs) s other p =
      each_other P step keep specs (step spec s).1 other.1 (keep spec s other.0 p)

  maintain_step-Stays :
      (html : Text) (spec : RouteSpec) (e : Edge c.State)
      → x.id ≢ spec.id
      → Stays e
      → Stays (maintain_step c html spec e).1
  unfolding maintain_step maintenance_route
  maintain_step-Stays html spec e other i = push-Stays spec.hostname _ e other i

  suspend_step-Stays :
      (m : Manager) (spec : RouteSpec) (e : Edge c.State)
      → x.id ≢ spec.id
      → Stays e
      → Stays (suspend_step c m spec e).1
  unfolding suspend_step wake_route redirect_route
  suspend_step-Stays m spec e other i = elim (Bool-cases (is_empty spec.redirect_to)) [
    | inl y ↦ rw y (push-Stays spec.hostname _ e other i)
    | inr n ↦ rw n (push-Stays spec.hostname _ e other i)
  ]

  serve_service-Stays :
      (m : Manager) (app : ProxyApp) (spec : RouteSpec) (found : Option Service)
      (s : List Text × Edge c.State)
      → x.id ≢ spec.id
      → Stays s.1
      → Stays (serve_service c m app spec found s).1.1
  unfolding attach_and_push route
  serve_service-Stays m app spec none s other i = delete-Stays spec.id s.1 other i
  serve_service-Stays m app spec (some svc) (attached, e) other i =
      elim (Bool-cases (is_routable m svc)) [
        | inr n ↦ rw n (delete-Stays spec.id e other i)
        | inl y ↦ rw y (elim (Bool-cases (is_attached c attached svc || connects c m app svc)) [
          | inl k ↦ rw k (push-Stays spec.hostname _ e other i)
          | inr k ↦ rw k i
        ])
      ]

  serve_step-Stays :
      (m : Manager) (app : ProxyApp) (services : List Service) (spec : RouteSpec)
      (s : List Text × Edge c.State)
      → x.id ≢ spec.id
      → Stays s.1
      → Stays (serve_step c m app services spec s).1.1
  unfolding serve_step redirect_route
  serve_step-Stays m app services spec s other i = elim (Bool-cases (is_empty spec.redirect_to)) [
    | inl y ↦ rw y (serve_service-Stays m app spec (by_name spec.service services) s other i)
    | inr n ↦ rw n (push-Stays spec.hostname _ s.1 other i)
  ]

  pub apply_mode-Stays :
      (maintained suspended : Bool) (m : Manager) (app : ProxyApp) (services : List Service)
      (specs : List RouteSpec) (e : Edge c.State)
      → All (λ spec. x.id ≢ spec.id) specs
      → Stays e
      → Stays (apply_mode c maintained suspended m app services specs e).1
  apply_mode-Stays true suspended m app services specs e other i =
      each_other Stays _ (maintain_step-Stays _) specs e other i
  apply_mode-Stays false true m app services specs e other i =
      each_other Stays (suspend_step c m) (suspend_step-Stays m) specs e other i
  apply_mode-Stays false false m app services specs e other i =
      each_other (λ (s : List Text × Edge c.State). Stays s.1) (serve_step c m app services)
        (serve_step-Stays m app services) specs ([], e) other i
