-- ===== src/Proxy/Reach/Runs.antt =====
-- Any sequence of the manager's methods, and what a request without a login can reach after it.
use vac.Proxy.{Manager, Route, Caddy, IsCaddy, Edge}
use vac.Proxy.Sync.{sync, sync_certs, teardown, install_wake_routes, reconcile}
use vac.Proxy.Exposure.{IsOpen}
use vac.Proxy.Reach.Methods.{
  sync-Within, sync_certs-Within, teardown-Within, install-Within, reconcile-Within,
}
use vac.Proxy.Reach.{Within}
use vac.Prelude.{Text, List, ◌∷◌, [], ◌⊎◌, inl, inr, In, refl}

-- The methods that change the routes, with the manager and the store as they are at the call.
pub data Call : Type 0 where
  sync_app : Manager → Text → Call
  all_apps : Manager → Call
  only_certs : Manager → Call
  tear_down : Manager → Text → Call
  suspend_app : Manager → Text → Call

abbrev pub at_call : Call → Manager
at_call (sync_app m id) = m
at_call (all_apps m) = m
at_call (only_certs m) = m
at_call (tear_down m id) = m
at_call (suspend_app m id) = m

module _ (c : Caddy) where
  abbrev pub run_call : Call → Edge c.State → Edge c.State
  run_call (sync_app m id) e = (sync c m id e).1
  run_call (all_apps m) e = (reconcile c m e).1
  run_call (only_certs m) e = (sync_certs c m e).1
  run_call (tear_down m id) e = (teardown c m id e).1
  run_call (suspend_app m id) e = (install_wake_routes c m id e).1

  unfoldable pub run_calls : List Call → Edge c.State → Edge c.State
  run_calls [] e = e
  run_calls (k ∷ ks) e = run_calls ks (run_call k e)

module _ (c : Caddy) (laws : IsCaddy c) (Good : Route → Type 0) where
  call-Within :
      (k : Call) (e : Edge c.State)
      → ((r : Route) → IsOpen (at_call k) r → Good r)
      → Within c laws Good e
      → Within c laws Good (run_call c k e)
  call-Within (sync_app m id) e accept w = sync-Within c laws Good m accept id e w
  call-Within (all_apps m) e accept w = reconcile-Within c laws Good m accept e w
  call-Within (only_certs m) e accept w = sync_certs-Within c laws Good m accept e w
  call-Within (tear_down m id) e accept w = teardown-Within c laws Good m accept id e w
  call-Within (suspend_app m id) e accept w = install-Within c laws Good m accept id e w

  calls-Within :
      (ks : List Call) (e : Edge c.State)
      → ((k : Call) → In k ks → (r : Route) → IsOpen (at_call k) r → Good r)
      → Within c laws Good e
      → Within c laws Good (run_calls c ks e)
  unfolding run_calls
  calls-Within [] e accept w = w
  calls-Within (k ∷ ks) e accept w =
      calls-Within ks (run_call c k e) (λ j i. accept j (inr i))
        (call-Within k e (accept k (inl refl)) w)

-- After any calls of Sync, Reconcile, SyncCerts, Teardown and InstallWakeRoutes, each with the store
-- and the settings of its moment, on a server that keeps to its admin API and may refuse any request:
-- a route that is served was served before the calls, or what it reaches before it asks for a login is
-- only the control plane and services that, when one of the calls read them, were listed for their app
-- with neither requires_auth nor is_private set.
pub run_calls-IsOpen :
    (c : Caddy) (laws : IsCaddy c) (ks : List Call) (e : Edge c.State) (r : Route)
    → In r (c.served (run_calls c ks e).caddy)
    → In r (c.served e.caddy) ⊎ ((k : Call) × (In k ks × IsOpen (at_call k) r))
run_calls-IsOpen c laws ks e r =
    calls-Within c laws
      (λ x. In x (c.served e.caddy) ⊎ ((k : Call) × (In k ks × IsOpen (at_call k) x))) ks e
      (λ k i x o. inr (k, (i, o))) (λ x i. inl i) r
