-- ===== src/Proxy.antt =====
-- api/internal/proxy, what the manager reads and writes. The methods of its interface Store are the
-- record Store, where `none` is an error; the Caddy server behind api/internal/caddy/client.go is the
-- record Caddy. A request's answer is `none` for a 2xx and else the text of the error. Log lines and
-- the texts of joined errors are left out: a method answers whether its error is nil.
pub mod Names
pub mod Hosts
pub mod Routes
pub mod Apply
pub mod Sync
pub mod Health
pub mod Exposure
pub mod Reach
pub mod Stays
pub mod Unassigned
pub mod Gate
pub mod Maintained
mod Server
mod Tests
use vac.Deploy.Services.{Service}
use vac.DomainStatus.{Engine}
use vac.Prelude.{Text, ℤ, ℕ, Bool, List, Option, [], none, ◌∷◌, ◌++◌, ◌≡◌, ◌≢◌, ◌⊎◌, In, inr, some}

-- The columns of apps that the manager reads.
pub record ProxyApp : Type 0 where
  pub id : Text
  pub slug : Text
  pub maintenance_active : Bool
  pub maintenance_html : Option Text
  pub suspended : Bool
  pub rate_limit_rpm : Option ℤ

pub record Domain : Type 0 where
  pub id : Text
  pub app_id : Text
  pub service_name : Text
  pub hostname : Text
  pub redirect_to : Text

pub record UploadedCert : Type 0 where
  pub domain_id : Text
  pub cert_pem : Text
  pub key_enc : Text

pub record CertKeyPair : Type 0 where
  pub certificate : Text
  pub key : Text
  pub tags : List Text

pub record HealthCheck : Type 0 where
  pub check_path : Text
  pub interval : ℤ
  pub timeout : ℤ

-- The shapes of caddy.Handler that the manager builds. `forward_auth` is the reverse_proxy with a
-- rewrite, whose response handler copies headers on a 2xx.
pub data Handler : Type 0 where
  set_headers : List (Text × Text) → Handler
  rewrite : Text → Handler
  reverse_proxy : Text → Option HealthCheck → Handler
  forward_auth : (dial uri : Text) → (copied : List (Text × Text)) → Handler
  static_response : (status : ℕ) → List (Text × Text) → (body : Text) → Handler
  rate_limit : (zone : Text) → (max_events : ℤ) → Handler

pub record Route : Type 0 where
  pub id : Text
  pub host : Text
  pub handle : List Handler

-- The Caddy server: its state is its own, and `served` is its list of routes.
pub record Caddy : Type 1 where
  pub State : Type 0
  pub post_route : Route → State → Option Text × State
  pub delete_id : Text → State → Option Text × State
  pub routes : State → Text ⊎ List Route
  pub load : State → Option Text × State
  pub patch_certs : List CertKeyPair → State → Option Text × State
  pub upstreams : State → Option (List (Text × ℕ))
  pub served : State → List Route

-- The addresses that a route hands requests to.
abbrev pub dials_of : List Handler → List Text
dials_of [] = []
dials_of (reverse_proxy d h ∷ hs) = d ∷ dials_of hs
dials_of (forward_auth d u cs ∷ hs) = d ∷ dials_of hs
dials_of (h ∷ hs) = dials_of hs

-- What Caddy documents of its admin API. A request that fails may have been carried out.
pub record IsCaddy (c : Caddy) : Type 0 where
  pub post_adds :
      (r : Route) (s : c.State) (x : Route)
      → In x (c.served (c.post_route r s).1)
      → In x (c.served s) ⊎ (x ≡ r)
  pub post_keeps :
      (r : Route) (s : c.State) (x : Route)
      → In x (c.served s)
      → In x (c.served (c.post_route r s).1)
  pub delete_only :
      (id : Text) (s : c.State) (x : Route)
      → In x (c.served (c.delete_id id s).1)
      → In x (c.served s)
  pub delete_keeps :
      (id : Text) (s : c.State) (x : Route)
      → x.id ≢ id
      → In x (c.served s)
      → In x (c.served (c.delete_id id s).1)
  pub delete_done :
      (id : Text) (s : c.State) (x : Route)
      → (c.delete_id id s).0 ≡ none
      → In x (c.served (c.delete_id id s).1)
      → x.id ≢ id
  pub load_only : (s : c.State) (x : Route) → In x (c.served (c.load s).1) → In x (c.served s)
  pub certs_only :
      (cs : List CertKeyPair) (s : c.State) (x : Route)
      → In x (c.served (c.patch_certs cs s).1)
      → In x (c.served s)
  pub certs_keep :
      (cs : List CertKeyPair) (s : c.State) (x : Route)
      → In x (c.served s)
      → In x (c.served (c.patch_certs cs s).1)
  pub routes_served : (s : c.State) (rs : List Route) → c.routes s ≡ inr rs → rs ≡ c.served s
  pub upstreams_dialled :
      (s : c.State) (ups : List (Text × ℕ)) (addr : Text) (fails : ℕ)
      → c.upstreams s ≡ some ups
      → In (addr, fails) ups
      → (r : Route) × (In r (c.served s) × In addr (dials_of r.handle))

pub record Store : Type 0 where
  pub get_app : Text → Option ProxyApp
  pub list_apps : Option (List ProxyApp)
  pub list_domains_by_app : Text → Option (List Domain)
  pub list_all_domains : Option (List Domain)
  pub list_services_for_app : Text → Option (List Service)

pub record Config : Type 0 where
  pub edge_network : Text
  pub base_domain : Text
  pub control_domain : Text
  pub control_port : ℤ
  pub health_interval : ℤ
  pub health_timeout : ℤ
  pub health_retries : ℤ
  pub wake_token : Text
  pub guard_enabled : Bool

-- The certificate source and the box that opens a sealed key.
pub record CertSource : Type 0 where
  pub list_uploaded_certs : Option (List UploadedCert)
  pub open_key : Text → Option Text

-- The network controller answers whether a call succeeds; `query_escape` is url.QueryEscape, and
-- `default_html` the embedded page.
pub record Manager : Type 0 where
  pub store : Store
  pub cfg : Config
  pub base_domain_override : Option Text
  pub has_base_config : Bool
  pub cert_source : Option CertSource
  pub network_connect : (network container alias : Text) → Bool
  pub network_disconnect : (network container : Text) → Bool
  pub query_escape : Text → Text
  pub default_html : Text

-- What the manager changes: the server and the status engine, if one is wired.
pub record Edge (S : Type 0) : Type 0 where
  pub caddy : S
  pub engine : Option Engine
