-- ===== src/Deploy/Delivery/Starts.antt =====
-- When a webhook delivery starts a deploy: Webhook in api/internal/server/handler/webhooks.go.
use vac.Deploy.Delivery.Terms.{IsRef, InFlight}
use vac.Deploy.Sweeper.{window_of, parse_windows}
use vac.Deploy.Schema.{Deployment}
use vac.Webhook.Trigger.{DeployTrigger}
use vac.Deploy.Handlers.{Control}
use vac.Deploy.Delivery.{Previews, Hook, Delivery}
use vac.Webhook.Trigger.First.{IsFirst}
use vac.Prelude.{List, ℕ, Option, Text, Bool, ◌≡◌, some, true, false, In}

module _ (delete_fields : List ℕ → Option (Text × Bool)) (previews : Option Previews)
    {Schedule : Type 0} (decode : List ℕ → Option (List Schedule))
    (allows : ℕ → List Schedule → Bool) where
  -- What holds of a ref that starts a deploy: the first rule that is for it asks for no approval, the
  -- deploy windows are open or do not parse, and nothing of the app is in flight.
  pub record IsStart (now app_id : ℕ) (hook : Hook) (c : Control) (kind name : Text) : Type 0 where
    pub ts : List DeployTrigger
    pub rules : hook.triggers ≡ some ts
    pub name_ok : IsRef name
    pub rule : DeployTrigger
    pub is_first : IsFirst ts kind name (some rule)
    pub no_approval : rule.require_approval ≡ false
    pub is_open :
        (windows : List Schedule)
        → parse_windows decode allows (window_of app_id c.db.apps) ≡ some windows
        → allows now windows ≡ true
    pub idle : (d : Deployment) → In d c.db.rows → d.app_id ≡ app_id → ¬ InFlight d.status
