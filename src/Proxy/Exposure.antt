-- ===== src/Proxy/Exposure.antt =====
-- What a request without a login can reach through the routes that the manager pushes.
use vac.Proxy.{
  ProxyApp, Manager, Route, Handler, set_headers, rewrite, reverse_proxy, forward_auth,
  static_response, rate_limit,
}
use vac.Proxy.Hosts.{by_name}
use vac.Proxy.Routes.{dial, control_dial, route, limit_handlers, guard_handlers, above_zero}
use vac.Proxy.Apply.{each, is_routable}
use vac.Deploy.Services.{Service}
use vac.Prelude.{
  Text, Bool, List, Option, ◌∷◌, [], ◌++◌, none, some, true, false, ◌≡◌, ◌⊎◌, inl, inr, In, All,
  Bool-cases, refl, arith, ℤ, if◌then◌else◌, texts_eq, is_some, ◌&&◌, not,
}

-- The addresses that a route reaches before it asks for a login.
abbrev pub exposed : List Handler → List Text
exposed [] = []
exposed (reverse_proxy d h ∷ hs) = d ∷ exposed hs
exposed (forward_auth d u cs ∷ hs) = []
exposed (set_headers ps ∷ hs) = exposed hs
exposed (rewrite u ∷ hs) = exposed hs
exposed (static_response n ps b ∷ hs) = exposed hs
exposed (rate_limit z n ∷ hs) = exposed hs

-- A service of an app that needs no login and is not private.
pub record IsPublic (m : Manager) (addr : Text) : Type 0 where
  pub app_id : Text
  pub app : ProxyApp
  pub services : List Service
  pub service : Service
  pub is_app : m.store.get_app app_id ≡ some app
  pub are_services : m.store.list_services_for_app app_id ≡ some services
  pub is_service : In service services
  pub is_dial : dial app.slug service ≡ addr
  pub no_login : service.requires_auth ≡ false
  pub not_private : service.is_private ≡ false

abbrev pub Reachable : Manager → Text → Type 0
Reachable m addr = (addr ≡ control_dial m) ⊎ IsPublic m addr

abbrev pub IsOpen : Manager → Route → Type 0
IsOpen m r = All (Reachable m) (exposed r.handle)

pub each_keeps {ℓ κ} :
    {A : Type ℓ} {S : Type 0} (P : S → Type κ) (step : A → S → Bool × S)
    → ((x : A) (s : S) → P s → P (step x s).1)
    → (xs : List A) (s : S) → P s
    → P (each step xs s).1
unfolding each
each_keeps P step keep [] s p = p
each_keeps P step keep (x ∷ xs) s p = each_keeps P step keep xs (step x s).1 (keep x s p)

found_later_or_here :
    {A : Type 0} (later : Option A) (here : Bool) (s : A) {found : A}
    → (if is_some later then later else if here then some s else none) ≡ some found
    → (later ≡ some found) ⊎ (found ≡ s)
found_later_or_here (some a) here s h = inl h
found_later_or_here none true s h = inr (cc)
found_later_or_here none false s h = absurd cc

pub In-by_name :
    (name : Text) (ss : List Service) {svc : Service} → by_name name ss ≡ some svc → In svc ss
unfolding by_name
In-by_name name [] h = absurd cc
In-by_name name (s ∷ ss) h =
    elim (found_later_or_here (by_name name ss) (texts_eq s.service_name name) s h) [
      | inl later ↦ inr (In-by_name name ss later)
      | inr here ↦ inl here
    ]

exposed-limit :
    (id : Text) (rpm : Option ℤ) (hs : List Handler)
    → exposed (limit_handlers id rpm ++ hs) ≡ exposed hs
exposed-limit id none hs = refl
exposed-limit id (some rpm) hs = elim (Bool-cases (above_zero rpm)) [
  | inl y ↦ rw y refl
  | inr n ↦ rw n refl
]

guarded_cases :
    (login guard : Bool) → (login && not guard) ≡ false → (login ≡ false) ⊎ (guard ≡ true)
guarded_cases false guard h = inl refl
guarded_cases true true h = inr refl
guarded_cases true false h = absurd cc

-- A service that the loop routes is not private, and stands behind the login if it needs one.
pub is_routable-guarded :
    (m : Manager) (svc : Service)
    → is_routable m svc ≡ true
    → (svc.is_private ≡ false) × ((svc.requires_auth ≡ false) ⊎ (m.cfg.guard_enabled ≡ true))
is_routable-guarded m svc h =
    (ground arith, guarded_cases svc.requires_auth m.cfg.guard_enabled (ground arith))

pub route-exposed :
    (m : Manager) (id host : Text) (svc : Service) (slug : Text) (rpm : Option ℤ)
    → (svc.requires_auth ≡ false) ⊎ (m.cfg.guard_enabled ≡ true)
    → (exposed (route m id host svc slug rpm).handle ≡ [])
      ⊎ ((svc.requires_auth ≡ false)
          × (exposed (route m id host svc slug rpm).handle ≡ dial slug svc ∷ []))
unfolding route guard_handlers
route-exposed m id host svc slug rpm (inl free) =
    rw (exposed-limit id rpm) (inr (free, rw free refl))
route-exposed m id host svc slug rpm (inr guard) = elim (Bool-cases svc.requires_auth) [
  | inl login ↦ rw (exposed-limit id rpm) (inl (rw (login, guard) refl))
  | inr free ↦ rw (exposed-limit id rpm) (inr (free, rw free refl))
]
