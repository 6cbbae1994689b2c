-- ===== src/Deploy/Delivery/Tests.antt =====
-- A push to main of the third app, with a rule for any branch and a token for its credential.
use vac.Deploy.Samples.{control}
use vac.Prelude.{Text, Option, [], ◌∷◌, false, none, some, ◌++◌, ℕ, true}
use vac.Webhook.Trigger.{DeployTrigger, kind_push, heads}
use vac.Deploy.Delivery.{Delivery, Hook, webhook}
use vac.Deploy.Handlers.{Control, Response}

abbrev rule : DeployTrigger
rule = record {
  id = 1;
  app_id = 3;
  event = kind_push;
  filter = [];
  require_approval = false;
  created_at = 1;
}

abbrev shop_hook : Hook
shop_hook = record { git_branch = b'm' ∷ []; sealed_secret = 9 ∷ []; triggers = some (rule ∷ []) }

abbrev push : Delivery
push = record {
  headers = record { hub_signature = []; gitlab_token = []; vac_token = 8 ∷ [] };
  body = [];
  query = heads ++ b'm' ∷ [];
}

abbrev unsealed : Text → Option Text
unsealed sealed = some (8 ∷ [])

abbrev delivered : Control × Response
delivered =
    webhook (λ body. none) none {Schedule = ℕ} (λ raw. none) (λ now ws. true) (λ secret body. [])
      (some unsealed) (λ body. []) 5 50 3 shop_hook push (control 4)
