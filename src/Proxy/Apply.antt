-- ===== src/Proxy/Apply.antt =====
-- api/internal/proxy/manager.go with the client of api/internal/caddy/client.go: the requests
-- to Caddy, and applyApp with what it calls.
use vac.Proxy.{ProxyApp, Domain, Manager, Route, Caddy, Edge, UploadedCert, CertKeyPair, CertSource}
use vac.Proxy.Names.{alias}
use vac.Proxy.Hosts.{by_name}
use vac.Proxy.Routes.{
  RouteSpec, desired_routes, redirect_route, maintenance_route, page_of, wake_route, route,
}
use vac.Deploy.Services.{Service}
use vac.DomainStatus.{Engine, set_error, clear_error}
use vac.Compose.Preflight.{is_empty}
use vac.Compose.Strings.{contains_text}
use vac.Prelude.{
  Text, Bool, List, Option, ascii, ◌∷◌, [], ◌++◌, ◌&&◌, ◌||◌, if◌then◌else◌, none, some, not, true,
  false, is_some, any, texts_eq, ◌⊎◌, inl, inr,
}

-- Runs the step for every element, whatever the earlier ones answered, and answers whether all did.
unfoldable pub each {ℓ} : {A : Type ℓ} {S : Type 0} → (A → S → Bool × S) → List A → S → Bool × S
each step [] s = (true, s)
each step (x ∷ xs) s =
    ((step x s).0 && (each step xs (step x s).1).0, (each step xs (step x s).1).1)

abbrev pub marked : (host : Text) → Option Text → Option Engine → Option Engine
marked host answer none = none
marked host none (some e) = some (clear_error host e)
marked host (some detail) (some e) = some (set_error host detail e)

abbrev pub succeeded : Option Text → Bool
succeeded answer = not (is_some answer)

abbrev pub opened_cert : UploadedCert → Option Text → List CertKeyPair → List CertKeyPair
opened_cert row none rest = rest
opened_cert row (some key) rest =
    (record {
      certificate = row.cert_pem;
      key = key;
      tags = (ascii "vac-cert-" ++ row.domain_id) ∷ [];
    })
    ∷ rest

abbrev pub opened : (Text → Option Text) → List UploadedCert → List CertKeyPair
opened open_key [] = []
opened open_key (row ∷ rows) = opened_cert row (open_key row.key_enc) (opened open_key rows)

abbrev pub has_container : Option Text → Bool
has_container none = false
has_container (some c) = not (is_empty c)

abbrev pub container_of : Option Text → Text
container_of none = []
container_of (some c) = c

-- Where a desired route may hand requests to.
abbrev pub is_routable : Manager → Service → Bool
is_routable m svc =
    has_container svc.container_id
    && (is_some svc.internal_port
        && (not svc.is_private && not (svc.requires_auth && not m.cfg.guard_enabled)))

module _ (c : Caddy) where
  unfoldable pub put_route : Route → c.State → Option Text × c.State
  put_route r s = c.post_route r (c.delete_id r.id s).1

  unfoldable pub push : (host : Text) → Route → Edge c.State → Bool × Edge c.State
  unfolding put_route
  push host r e =
      let answer = put_route r e.caddy in
      (succeeded answer.0, record { caddy = answer.1; engine = marked host answer.0 e.engine })

  -- A push that leaves the status engine alone.
  unfoldable pub push_quietly : Route → Edge c.State → Bool × Edge c.State
  unfolding put_route
  push_quietly r e =
      let answer = put_route r e.caddy in (succeeded answer.0, record e { caddy = answer.1 })

  unfoldable pub delete_route : Text → Edge c.State → Bool × Edge c.State
  delete_route id e =
      let answer = c.delete_id id e.caddy in (succeeded answer.0, record e { caddy = answer.1 })

  -- A deletion whose error is only logged.
  abbrev pub drop_route : Text → Edge c.State → Bool × Edge c.State
  drop_route id e = (true, (delete_route id e).1)

  abbrev pub is_missing_server : Text ⊎ List Route → Bool
  is_missing_server (inl e) = contains_text e (ascii "invalid traversal path")
  is_missing_server (inr rs) = false

  unfoldable pub ensure_base_config : Manager → Edge c.State → Edge c.State
  ensure_base_config m e =
      if m.has_base_config && is_missing_server (c.routes e.caddy)
      then record e { caddy = (c.load e.caddy).1 }
      else e

  abbrev pub push_cert_set : CertSource → Edge c.State → Bool × Edge c.State
  push_cert_set source e = elim source.list_uploaded_certs [
    | none ↦ (false, e)
    | some rows ↦
        let answer = c.patch_certs (opened source.open_key rows) e.caddy in
        (succeeded answer.0, record e { caddy = answer.1 })
  ]

  unfoldable pub push_certs : Manager → Edge c.State → Bool × Edge c.State
  push_certs m e = elim m.cert_source [ none ↦ (true, e) | some source ↦ push_cert_set source e ]

  unfoldable pub maintain_step : (html : Text) → RouteSpec → Edge c.State → Bool × Edge c.State
  unfolding push
  maintain_step html spec e = push spec.hostname (maintenance_route spec.id spec.hostname html) e

  unfoldable pub suspend_step : Manager → RouteSpec → Edge c.State → Bool × Edge c.State
  unfolding push
  suspend_step m spec e =
      if is_empty spec.redirect_to
      then push spec.hostname (wake_route m spec.id spec.hostname) e
      else push spec.hostname (redirect_route spec.id spec.hostname spec.redirect_to) e

  abbrev pub is_attached : List Text → Service → Bool
  is_attached attached svc = any (λ id. texts_eq id (container_of svc.container_id)) attached

  abbrev pub connects : Manager → ProxyApp → Service → Bool
  connects m app svc =
      m.network_connect m.cfg.edge_network (container_of svc.container_id)
        (alias app.slug svc.service_name)

  -- The containers that the loop has attached go along with the edge.
  abbrev pub with_attached : List Text → Bool × Edge c.State → Bool × (List Text × Edge c.State)
  with_attached attached r = (r.0, (attached, r.1))

  unfoldable pub attach_and_push :
      Manager
      → ProxyApp
      → RouteSpec
      → Service
      → List Text × Edge c.State
      → Bool × (List Text × Edge c.State)
  unfolding push
  attach_and_push m app spec svc (attached, e) =
      if is_attached attached svc || connects m app svc
      then with_attached (container_of svc.container_id ∷ attached)
          (push spec.hostname (route m spec.id spec.hostname svc app.slug app.rate_limit_rpm) e)
      else (false, (attached, e))

  abbrev pub serve_service :
      Manager
      → ProxyApp
      → RouteSpec
      → Option Service
      → List Text × Edge c.State
      → Bool × (List Text × Edge c.State)
  serve_service m app spec none s = with_attached s.0 (drop_route spec.id s.1)
  serve_service m app spec (some svc) s =
      if is_routable m svc
      then attach_and_push m app spec svc s
      else with_attached s.0 (drop_route spec.id s.1)

  unfoldable pub serve_step :
      Manager
      → ProxyApp
      → List Service
      → RouteSpec
      → List Text × Edge c.State
      → Bool × (List Text × Edge c.State)
  unfolding attach_and_push push
  serve_step m app services spec s =
      if is_empty spec.redirect_to
      then serve_service m app spec (by_name spec.service services) s
      else with_attached s.0
          (push spec.hostname (redirect_route spec.id spec.hostname spec.redirect_to) s.1)

  -- The maintenance page, the wake routes or the services, by the two flags.
  abbrev pub apply_mode :
      (maintained suspended : Bool)
      → Manager
      → ProxyApp
      → List Service
      → List RouteSpec
      → Edge c.State
      → Bool × Edge c.State
  apply_mode true suspended m app services specs e =
      each (maintain_step (page_of app.maintenance_html m.default_html)) specs e
  apply_mode false true m app services specs e = each (suspend_step m) specs e
  apply_mode false false m app services specs e =
      let r = each (serve_step m app services) specs ([], e) in (r.0, r.1.1)

  unfoldable pub apply_loaded :
      Manager → ProxyApp → List Domain → List Service → Edge c.State → Bool × Edge c.State
  unfolding each maintain_step suspend_step serve_step
  apply_loaded m app domains services e =
      apply_mode app.maintenance_active app.suspended m app services
        (desired_routes m app domains services) e

  -- Behind the reads of an app, its domains and its services, of which any may fail.
  abbrev pub loaded_from {ℓ} :
      {A : Type ℓ}
      → A
      → (ProxyApp → List Domain → List Service → A)
      → Option ProxyApp
      → Option (List Domain)
      → Option (List Service)
      → A
  loaded_from failed f none domains services = failed
  loaded_from failed f (some app) none services = failed
  loaded_from failed f (some app) (some domains) none = failed
  loaded_from failed f (some app) (some domains) (some services) = f app domains services

  abbrev pub loaded {ℓ} :
      {A : Type ℓ} → Manager → Text → A → (ProxyApp → List Domain → List Service → A) → A
  loaded m app_id failed f =
      loaded_from failed f (m.store.get_app app_id) (m.store.list_domains_by_app app_id)
        (m.store.list_services_for_app app_id)

  unfoldable pub apply_app : Manager → Text → Edge c.State → Bool × Edge c.State
  unfolding apply_loaded
  apply_app m app_id e =
      loaded m app_id (false, e) (λ app domains services. apply_loaded m app domains services e)
