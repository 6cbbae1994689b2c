-- ===== src/Proxy/Unassigned.antt =====
-- What becomes of a route whose domain has lost its app.
use vac.Proxy.Exposure.{each_keeps}
use vac.Proxy.Sync.{sync, apply_control_route, prune_step, prune_from, is_backed, prune_orphans}
use vac.Proxy.Names.{route_id, auto_route_id, control_route_id, is_managed_route_id}
use vac.Proxy.{ProxyApp, Manager, Route, Caddy, IsCaddy, Edge, Domain, CertSource}
use vac.Proxy.Hosts.{AutoHost, assigned, auto_hosts_for_app, auto_hosts}
use vac.Proxy.Routes.{desired_routes, domain_specs, spec_of, auto_spec, control_route}
use vac.Proxy.Apply.{
  apply_loaded, push_certs, loaded_from, push_quietly, apply_app, ensure_base_config,
}
use vac.Compose.Preflight.{is_empty}
use vac.Deploy.Services.{Service}
use vac.Prelude.{
  Text, List, Option, ◌∷◌, [], none, some, true, false, ◌≢◌, inl, inr, In, All, Bool-cases, ◌||◌,
  All-append, map, ◌≡◌, arith, ◌⊎◌, refl, sym, Option-cases, subst, ◌∙◌, not, texts_eq, ap,
  texts_eq_refl, any_intro, ||-left, ||-second,
}
use vac.Proxy.Stays.{put_route-Stays, delete-Stays, apply_mode-Stays}
use mathlib.Core.Option.{some-injective}
use mathlib.Core.Bool.{false≢true}

unequal_texts : (s t : Text) → texts_eq s t ≡ false → s ≢ t
unequal_texts s t h q = false≢true (sym h ∙ (ap (texts_eq s) (sym q) ∙ texts_eq_refl s))

route_id-injective : (a b : Text) → route_id a ≡ route_id b → a ≡ b
unfolding route_id
route_id-injective a b h = cc

route_id-auto : (a app service : Text) → route_id a ≢ auto_route_id app service
unfolding route_id auto_route_id
route_id-auto a app service h = ground arith

route_id-control : (a : Text) → route_id a ≢ control_route_id
unfolding route_id
route_id-control a h = ground arith

spec_of-id : (d : Domain) → (spec_of d).id ≡ route_id d.id
spec_of-id d = elim (Bool-cases (is_empty d.redirect_to)) [ inl y ↦ rw y refl | inr n ↦ rw n refl ]

module _ (d : Domain) (lost : assigned d ≡ false) where
  -- The rows of one id are one row.
  abbrev pub OneRow : List Domain → Type 0
  OneRow ds = All (λ k. k.id ≡ d.id → k ≡ d) ds

  domain_specs-other :
      (ds : List Domain) → OneRow ds → All (λ spec. route_id d.id ≢ spec.id) (domain_specs ds)
  domain_specs-other [] h = tt
  domain_specs-other (k ∷ ds) h = elim (Bool-cases (assigned k)) [
    | inr n ↦ rw n (domain_specs-other ds h.1)
    | inl y ↦
        let other = (λ (q : route_id d.id ≡ (spec_of k).id).
          let same = h.0 (sym (route_id-injective d.id k.id (q ∙ spec_of-id k))) in
          false≢true (sym lost ∙ (ap assigned (sym same) ∙ y))) in
        rw y (other, domain_specs-other ds h.1)
  ]

auto_specs-other :
    (id : Text) (app : ProxyApp) (hs : List AutoHost)
    → All (λ spec. route_id id ≢ spec.id) (map (auto_spec app) hs)
auto_specs-other id app [] = tt
auto_specs-other id app (h ∷ hs) =
    (route_id-auto id app.id h.service_name, auto_specs-other id app hs)

desired-other :
    (m : Manager) (app : ProxyApp) (ds : List Domain) (ss : List Service) (d : Domain)
    → assigned d ≡ false
    → All (λ k. k.id ≡ d.id → k ≡ d) ds
    → All (λ spec. route_id d.id ≢ spec.id) (desired_routes m app ds ss)
unfolding desired_routes
desired-other m app ds ss d lost h =
    All-append (λ spec. route_id d.id ≢ spec.id) (domain_specs ds) _
      (domain_specs-other d lost ds h) (auto_specs-other d.id app (auto_hosts_for_app m app ss))

ensure-readable :
    (c : Caddy) (m : Manager) (e : Edge c.State) (rs : List Route)
    → c.routes e.caddy ≡ inr rs
    → ensure_base_config c m e ≡ e
unfolding ensure_base_config
ensure-readable c m e rs h = elim (Bool-cases m.has_base_config) [
  | inl y ↦ rw (y, h) refl
  | inr n ↦ rw n refl
]

module _ (c : Caddy) (laws : IsCaddy c) (x : Route) (d : Domain) (lost : assigned d ≡ false)
    (is_route : x.id ≡ route_id d.id) (m : Manager) where
  abbrev Served : Edge c.State → Type 0
  Served e = In x (c.served e.caddy)

  apply_from-Served :
      (app : Option ProxyApp) (domains : Option (List Domain)) (services : Option (List Service))
      (e : Edge c.State)
      → ((ds : List Domain) → domains ≡ some ds → All (λ k. k.id ≡ d.id → k ≡ d) ds)
      → Served e
      → Served
          (loaded_from c (false, e) (λ a ds ss. apply_loaded c m a ds ss e) app domains services).1
  unfolding apply_loaded
  apply_from-Served none domains services e other i = i
  apply_from-Served (some app) none services e other i = i
  apply_from-Served (some app) (some ds) none e other i = i
  apply_from-Served (some app) (some ds) (some ss) e other i =
      apply_mode-Stays c laws x app.maintenance_active app.suspended m app ss
        (desired_routes m app ds ss) e
        (subst (λ (id : Text). All (λ spec. id ≢ spec.id) (desired_routes m app ds ss))
          (sym is_route) (desired-other m app ds ss d lost (other ds refl)))
        i

  control-Served : (e : Edge c.State) → Served e → Served (apply_control_route c m e).1
  unfolding apply_control_route push_quietly control_route
  control-Served e i =
      let other = (λ (q : x.id ≡ control_route_id). route_id-control d.id (sym is_route ∙ q)) in
      elim (Bool-cases (is_empty m.cfg.control_domain)) [
        | inl y ↦ rw y (delete-Stays c laws x control_route_id e other i)
        | inr n ↦ rw n (put_route-Stays c laws x (control_route m) e.caddy other i)
      ]

  -- A route with the id is backed by the domain's row, and another one is another one.
  prune_step-Served :
      (domains : List Domain) (hosts : List AutoHost)
      → In d domains
      → (r : Route) (e : Edge c.State) → Served e
      → Served (prune_step c domains hosts r e).1
  unfolding prune_step
  prune_step-Served domains hosts listed r e i =
      let tested = not (is_managed_route_id r.id) || is_backed c domains hosts r.id in
      elim (Bool-cases (texts_eq (route_id d.id) r.id)) [
        | inl same ↦
            let found =
              any_intro (λ (k : Domain). texts_eq (route_id k.id) r.id) domains listed same in
            let backed : is_backed c domains hosts r.id ≡ true = ||-left _ _ found in
            rw (||-second (not (is_managed_route_id r.id)) (is_backed c domains hosts r.id) backed)
              i
        | inr differ ↦ elim (Bool-cases tested) [
          | inl y ↦ rw y i
          | inr n ↦ rw n (
              delete-Stays c laws x r.id e
                (λ q. unequal_texts (route_id d.id) r.id differ (sym is_route ∙ q)) i)
        ]
      ]

  prune_from-Served :
      (domains : Option (List Domain)) (hosts : Option (List AutoHost)) (answer : Text ⊎ List Route)
      (e : Edge c.State)
      → ((ds : List Domain) → domains ≡ some ds → In d ds)
      → Served e
      → Served (prune_from c domains hosts answer e).1
  prune_from-Served none hosts answer e listed i = i
  prune_from-Served (some ds) none answer e listed i = i
  prune_from-Served (some ds) (some hosts) (inl failure) e listed i = i
  prune_from-Served (some ds) (some hosts) (inr rs) e listed i =
      each_keeps Served (prune_step c ds hosts) (prune_step-Served ds hosts (listed ds refl)) rs e i

  certs-Served :
      (source : Option CertSource) (e : Edge c.State)
      → m.cert_source ≡ source
      → Served e
      → Served (push_certs c m e).1
  unfolding push_certs
  certs-Served none e h i = rw h i
  certs-Served (some source) e h i = elim (Option-cases source.list_uploaded_certs) [
    | inl n ↦ rw (h, n) i
    | inr (rows, y) ↦ rw (h, y) (laws.certs_keep _ e.caddy x i)
  ]

-- A Sync leaves the route of a domain in place that has lost its app: where the domain's row has no app
-- or no service, rows of its id are that row, and Caddy's routes can be read before it, a route with the
-- domain's id that Caddy serves is still served after the Sync of any app, the app that the domain was
-- taken from included, whatever else fails.
pub sync-keeps_unassigned :
    (c : Caddy) (laws : IsCaddy c) (m : Manager) (app_id : Text) (e : Edge c.State) (d : Domain)
    (domains : List Domain) (x : Route) (rs : List Route)
    → assigned d ≡ false
    → m.store.list_all_domains ≡ some domains
    → In d domains
    → ((ds : List Domain)
        → m.store.list_domains_by_app app_id ≡ some ds
        → All (λ k. k.id ≡ d.id → k ≡ d) ds)
    → c.routes e.caddy ≡ inr rs
    → x.id ≡ route_id d.id
    → In x (c.served e.caddy)
    → In x (c.served (sync c m app_id e).1.caddy)
unfolding sync apply_app prune_orphans
sync-keeps_unassigned c laws m app_id e d domains x rs lost listing listed one readable is_route i =
    let start = ensure_base_config c m e in
    let started =
      subst (λ (f : Edge c.State). In x (c.served f.caddy))
        (sym (ensure-readable c m e rs readable)) i in
    let applied =
      apply_from-Served c laws x d lost is_route m (m.store.get_app app_id)
        (m.store.list_domains_by_app app_id) (m.store.list_services_for_app app_id) start one
        started in
    let control =
      control-Served c laws x d lost is_route m (apply_app c m app_id start).1 applied in
    let controlled = (apply_control_route c m (apply_app c m app_id start).1).1 in
    let pruned =
      prune_from-Served c laws x d lost is_route m m.store.list_all_domains (auto_hosts m)
        (c.routes controlled.caddy) controlled
        (λ ds q. subst (In d) (some-injective domains ds (sym listing ∙ q)) listed) control in
    certs-Served c laws x d lost is_route m m.cert_source _ refl pruned
