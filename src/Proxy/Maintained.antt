-- ===== src/Proxy/Maintained.antt =====
-- The health gate under maintenance: the pages have no upstream, so that the gate waits in vain.
use vac.Proxy.Reach.{finish-Within, ensure-Within}
use vac.Proxy.Health.{wait_healthy, unhealthy, ended, wanted}
use vac.Proxy.Sync.{sync}
use vac.Proxy.Gate.{gate-NoDial}
use vac.Deploy.Services.{Service}
use vac.Proxy.{Manager, Route, Caddy, IsCaddy, Edge, dials_of, ProxyApp, Domain}
use vac.Proxy.Routes.{
  RouteSpec, control_dial, maintenance_route, desired_routes, control_route, page_of,
}
use vac.Proxy.Apply.{
  put_route, push, maintain_step, each, apply_app, apply_loaded, apply_mode, ensure_base_config,
}
use vac.Prelude.{
  Text, List, ◌∷◌, [], none, ◌≡◌, ◌≢◌, ◌⊎◌, inl, inr, In, All, sym, ap, some, true, Bool, subst, ℕ,
  refl,
}

-- No desired route of the app is the route's.
abbrev pub Foreign : List RouteSpec → Route → Type 0
Foreign specs x = All (λ spec. spec.id ≢ x.id) specs

-- What a maintained app's Sync leaves: routes of others that were there, pages, and the control route.
abbrev IsLeft : (Old : Route → Type 0) → Manager → List RouteSpec → Route → Type 0
IsLeft Old m specs x =
    (Old x × Foreign specs x)
    ⊎ ((dials_of x.handle ≡ []) ⊎ (dials_of x.handle ≡ control_dial m ∷ []))

-- A DELETE by id fails only where no route that is served has the id: the admin API answers an unknown
-- id with an error, and is otherwise up.
abbrev pub CarriesOut : Caddy → Type 0
CarriesOut c =
    (id : Text) (s : c.State)
    → ((c.delete_id id s).0 ≡ none) ⊎ ((x : Route) → In x (c.served s) → x.id ≢ id)

deleted_gone :
    (c : Caddy) (laws : IsCaddy c) (deletes : CarriesOut c) (id : Text) (s : c.State) (x : Route)
    → In x (c.served (c.delete_id id s).1)
    → id ≢ x.id
deleted_gone c laws deletes id s x i = elim (deletes id s) [
  | inl done ↦ λ q. laws.delete_done id s x done i (sym q)
  | inr unknown ↦ λ q. unknown x (laws.delete_only id s x i) (sym q)
]

module _ (c : Caddy) (laws : IsCaddy c) (deletes : CarriesOut c) (html : Text) where
  maintain_step-page :
      (Old : Route → Type 0) (spec : RouteSpec) (e : Edge c.State)
      → ((x : Route) → In x (c.served e.caddy) → Old x ⊎ (dials_of x.handle ≡ []))
      → (x : Route) → In x (c.served (maintain_step c html spec e).1.caddy)
      → (Old x × (spec.id ≢ x.id)) ⊎ (dials_of x.handle ≡ [])
  unfolding maintain_step push put_route maintenance_route
  maintain_step-page Old spec e w x i =
      let page = maintenance_route spec.id spec.hostname html in
      elim (laws.post_adds page (c.delete_id spec.id e.caddy).1 x i) [
        | inr new ↦ inr (ap (λ (r : Route). dials_of r.handle) new)
        | inl old ↦ elim (w x (laws.delete_only spec.id e.caddy x old)) [
          | inr was_page ↦ inr was_page
          | inl o ↦ inl (o, deleted_gone c laws deletes spec.id e.caddy x old)
        ]
      ]

  pages-Foreign :
      (Old : Route → Type 0) (specs : List RouteSpec) (e : Edge c.State)
      → ((x : Route) → In x (c.served e.caddy) → Old x ⊎ (dials_of x.handle ≡ []))
      → (x : Route) → In x (c.served (each (maintain_step c html) specs e).1.caddy)
      → (Old x × Foreign specs x) ⊎ (dials_of x.handle ≡ [])
  unfolding each
  pages-Foreign Old [] e w x i = elim (w x i) [ inl o ↦ inl (o, tt) | inr page ↦ inr page ]
  pages-Foreign Old (spec ∷ specs) e w x i =
      elim (pages-Foreign (λ r. Old r × (spec.id ≢ r.id)) specs (maintain_step c html spec e).1
        (maintain_step-page Old spec e w) x i) [
          | inl (o, foreign) ↦ inl (o.0, (o.1, foreign))
          | inr page ↦ inr page
        ]

module _ (c : Caddy) (laws : IsCaddy c) (deletes : CarriesOut c) (m : Manager) (app_id : Text)
    (app : ProxyApp) (domains : List Domain) (services : List Service)
    (is_app : m.store.get_app app_id ≡ some app)
    (are_domains : m.store.list_domains_by_app app_id ≡ some domains)
    (are_services : m.store.list_services_for_app app_id ≡ some services)
    (maintained : app.maintenance_active ≡ true) (e : Edge c.State) where
  abbrev IsBefore : Route → Type 0
  IsBefore x = In x (c.served e.caddy)

  abbrev desired : List RouteSpec
  desired = desired_routes m app domains services

  abbrev html : Text
  html = page_of app.maintenance_html m.default_html

  apply_app-pages :
      (f : Edge c.State) → apply_app c m app_id f ≡ each (maintain_step c html) desired f
  unfolding apply_app apply_loaded
  apply_app-pages f =
      rw (is_app, are_domains, are_services)
        (ap (λ (b : Bool). apply_mode c b app.suspended m app services desired f) maintained)

  apply-IsLeft :
      (f : Edge c.State)
      → ((x : Route) → In x (c.served f.caddy) → IsBefore x)
      → (x : Route) → In x (c.served (apply_app c m app_id f).1.caddy)
      → IsLeft IsBefore m desired x
  apply-IsLeft f w x i =
      elim (pages-Foreign c laws deletes html IsBefore desired f (λ r j. inl (w r j)) x
        (subst (λ (g : Bool × Edge c.State). In x (c.served g.1.caddy)) (apply_app-pages f) i)) [
          | inl foreign ↦ inl foreign
          | inr page ↦ inr (inl page)
        ]

  sync-IsLeft :
      (x : Route) → In x (c.served (sync c m app_id e).1.caddy) → IsLeft IsBefore m desired x
  unfolding sync control_route
  sync-IsLeft =
      finish-Within c laws (IsLeft IsBefore m desired) m
        (apply_app c m app_id (ensure_base_config c m e)) (inr (inr refl))
        (apply-IsLeft (ensure_base_config c m e) (ensure-Within c laws IsBefore m e (λ x i. i)))

-- Where only routes of the app itself hand requests to a service's address, and it is not the control
-- plane's, no route does so after the Sync.
left-NoDial :
    (c : Caddy) (m : Manager) (specs : List RouteSpec) (e f : Edge c.State) (addr : Text)
    → addr ≢ control_dial m
    → ((x : Route) → In x (c.served e.caddy) → Foreign specs x → ¬ In addr (dials_of x.handle))
    → ((x : Route) → In x (c.served f.caddy) → IsLeft (λ r. In r (c.served e.caddy)) m specs x)
    → (x : Route) → In x (c.served f.caddy)
    → ¬ In addr (dials_of x.handle)
left-NoDial c m specs e f addr other own rest x i = elim (rest x i) [
  | inl (old, foreign) ↦ own x old foreign
  | inr (inl page) ↦ λ d. subst (In addr) page d
  | inr (inr control) ↦
      λ d. elim (subst (In addr) control d) [ inl same ↦ other same | inr none_left ↦ none_left ]
]

-- While an app is in maintenance, by hand or for a deploy, its health gate never opens: after a Sync of
-- the app in maintenance, where Caddy refuses to delete an id only if it serves no route with it, only routes of the app dial a service that
-- the gate asks for, and its address is not that of the control plane, WaitHealthy fails or its context
-- ends, as long as Caddy serves the routes that the Sync left, however many attempts there are.
pub maintained-never_healthy :
    (c : Caddy) (laws : IsCaddy c) (m : Manager) (app_id : Text) (app : ProxyApp)
    (domains : List Domain) (services : List Service) (e : Edge c.State) (addr : Text)
    (ended_at late_at : ℕ → Bool) (server_at : ℕ → c.State)
    → CarriesOut c
    → m.store.get_app app_id ≡ some app
    → m.store.list_domains_by_app app_id ≡ some domains
    → m.store.list_services_for_app app_id ≡ some services
    → app.maintenance_active ≡ true
    → In addr (wanted app.slug services (desired_routes m app domains services))
    → addr ≢ control_dial m
    → ((x : Route)
        → In x (c.served e.caddy)
        → Foreign (desired_routes m app domains services) x
        → ¬ In addr (dials_of x.handle))
    → ((n : ℕ) → c.served (server_at n) ≡ c.served (sync c m app_id e).1.caddy)
    → (wait_healthy c ended_at late_at server_at m app_id ≡ unhealthy)
      ⊎ (wait_healthy c ended_at late_at server_at m app_id ≡ ended)
unfolding wait_healthy
maintained-never_healthy c laws m app_id app domains services e addr ended_at late_at server_at
      deletes is_app are_domains are_services maintained asked other own stays =
    let desired = desired_routes m app domains services in
    rw (is_app, are_domains, are_services)
      (gate-NoDial c laws (wanted app.slug services desired) addr asked ended_at late_at server_at m
        (λ n x i.
          left-NoDial c m desired e (sync c m app_id e).1 addr other own
            (sync-IsLeft c laws deletes m app_id app domains services is_app are_domains
              are_services maintained e)
            x (subst (In x) (stays n) i)))
