-- ===== src/Proxy/Health.antt =====
-- api/internal/proxy/health.go: the health gate, which polls Caddy's pool of upstreams; and the defaults that
-- New of manager.go fills in.
use vac.Proxy.{Manager, Caddy, Config}
use vac.Proxy.Hosts.{by_name}
use vac.Proxy.Routes.{RouteSpec, desired_routes, dial, above_zero}
use vac.Proxy.Apply.{has_container, loaded}
use vac.Compose.Preflight.{is_empty}
use vac.Deploy.Services.{Service}
use vac.Prelude.{
  Text, ℤ, pos, negsuc, ℕ, zero, suc, Bool, List, Option, ascii, ◌∷◌, [], ◌&&◌, if◌then◌else◌, none,
  some, true, false, is_some, any, texts_eq, ◌==◌,
}

abbrev pub or_default : ℤ → ℤ → ℤ
or_default x d = if above_zero x then x else d

-- Durations are nanoseconds.
unfoldable pub with_defaults : Config → Config
with_defaults cfg = record cfg {
  edge_network = if is_empty cfg.edge_network then ascii "vac-edge" else cfg.edge_network;
  health_interval = or_default cfg.health_interval (pos 5000000000);
  health_timeout = or_default cfg.health_timeout (pos 30000000000);
  health_retries = or_default cfg.health_retries (pos 5);
}

abbrev pub is_gated : Service → Bool
is_gated svc = has_container svc.container_id && is_some svc.internal_port

abbrev pub wanted_dial : (slug : Text) → Option Service → List Text → List Text
wanted_dial slug none rest = rest
wanted_dial slug (some svc) rest = if is_gated svc then dial slug svc ∷ rest else rest

-- The keys of the map, an address that several routes share as often.
unfoldable pub wanted : (slug : Text) → List Service → List RouteSpec → List Text
unfolding by_name
wanted slug services [] = []
wanted slug services (spec ∷ specs) =
    wanted_dial slug (by_name spec.service services) (wanted slug services specs)

abbrev pub is_fine : List (Text × ℕ) → Text → Bool
is_fine ups addr = any (λ u. u.1 == 0 && texts_eq u.0 addr) ups

abbrev pub all_fine : List (Text × ℕ) → List Text → Bool
all_fine ups [] = true
all_fine ups (addr ∷ addrs) = is_fine ups addr && all_fine ups addrs

abbrev pub attempts_of : ℤ → ℕ
attempts_of (pos zero) = 1
attempts_of (pos (suc n)) = suc n
attempts_of (negsuc n) = 1

pub data Gate : Type 0 where
  healthy unhealthy ended not_loaded : Gate

module _ (c : Caddy) where
  abbrev pub answer_fine : List Text → Option (List (Text × ℕ)) → Bool
  answer_fine want none = false
  answer_fine want (some ups) = all_fine ups want

  unfoldable pub all_healthy : List Text → c.State → Bool
  all_healthy want s = answer_fine want (c.upstreams s)

  -- One attempt after another: the server as it is at each, whether the context ends before it and
  -- whether the deadline has passed after it. The number is that of the attempts left.
  unfoldable pub poll :
      (ended_at late_at : ℕ → Bool)
      → (server_at : ℕ → c.State) → List Text
      → (attempt : ℕ) → (left : ℕ) → Gate
  unfolding all_healthy
  poll ended_at late_at server_at want attempt zero = unhealthy
  poll ended_at late_at server_at want attempt (suc left) =
      let rest = poll ended_at late_at server_at want (suc attempt) left in
      if ended_at attempt
      then ended
      else if all_healthy want (server_at attempt)
      then healthy
      else if late_at attempt
      then unhealthy
      else rest

  abbrev pub gate_on :
      (ended_at late_at : ℕ → Bool) → (server_at : ℕ → c.State) → Manager → List Text → Gate
  gate_on ended_at late_at server_at m [] = healthy
  gate_on ended_at late_at server_at m (addr ∷ addrs) =
      poll ended_at late_at server_at (addr ∷ addrs) 0 (attempts_of m.cfg.health_retries)

  unfoldable pub wait_healthy :
      (ended_at late_at : ℕ → Bool) → (server_at : ℕ → c.State) → Manager → Text → Gate
  unfolding poll wanted
  wait_healthy ended_at late_at server_at m app_id =
      loaded c m app_id not_loaded (λ app domains services.
        gate_on ended_at late_at server_at m
          (wanted app.slug services (desired_routes m app domains services)))
