-- ===== src/Deploy/Delivery.antt =====
-- The whole of Webhook in api/internal/server/handler/webhooks.go. What a delivery reads of the
-- app is a `Hook`; the preview lifecycle answers through `Previews`. The parameters are HMAC-SHA256,
-- the secret box, the JSON decoders, and the deploy windows as in Sweeper. A body that cannot be read,
-- and the audit entries, are left out.
pub mod Terms
pub mod Starts
mod Tests
use vac.Deploy.Schema.{has_app}
use vac.Deploy.Sweeper.{parse_windows, window_of}
use vac.Webhook.Trigger.{
  DeployTrigger, matching_trigger, kind_tag, kind_push, extract_ref, is_branch_delete,
  match_triggers, parse_ref, kind_preview,
}
use vac.Deploy.Handlers.{Response, reply, Control, webhook_deploy}
use vac.Prelude.{
  List, Text, Option, String, ℕ, Bool, if◌then◌else◌, texts_eq, ◌⊎◌, some, inl, not, inr, ◌∷◌, none,
  false, ◌&&◌, true, [],
}
use vac.Webhook.Verify.{Headers, git_ref_ok, verify}

pub record Hook : Type 0 where
  pub git_branch : Text
  pub sealed_secret : Text
  pub triggers : Option (List DeployTrigger)

pub record Delivery : Type 0 where
  pub headers : Headers
  pub body : List ℕ
  pub query : Text

pub data PreviewAnswer : Type 0 where
  fine absent cap_reached failed : PreviewAnswer

pub record Previews : Type 0 where
  pub teardown_by_branch : Text → PreviewAnswer
  pub ensure_preview : Text → PreviewAnswer

abbrev teardown_reply : PreviewAnswer → Response
teardown_reply fine = reply 202 "preview-teardown"
teardown_reply absent = reply 200 "ignored"
teardown_reply _ = reply 500 "could not tear down preview"

abbrev ensure_reply : PreviewAnswer → Response
ensure_reply fine = reply 202 "preview"
ensure_reply cap_reached = reply 202 "capped"
ensure_reply _ = reply 500 "could not ensure preview"

abbrev pub needs_approval : List DeployTrigger → (kind name : Text) → Bool
needs_approval ts kind name = elim (matching_trigger ts kind name) [
  | none ↦ false
  | some t ↦ t.require_approval
]

abbrev pub triggered_by : Text → String
triggered_by kind = if texts_eq kind kind_tag then "tag" else "push"

-- The preview fork of a push: none where the delivery goes on to the parent's own triggers.
unfoldable pub preview_fork :
    (List ℕ → Option (Text × Bool))
    → Option Previews
    → Hook
    → List ℕ
    → List DeployTrigger
    → (kind name : Text) → Option Response
preview_fork delete_fields none hook body ts kind name = none
preview_fork delete_fields (some p) hook body ts kind name =
    if not (texts_eq kind kind_push)
    then none
    else if is_branch_delete delete_fields body
    then some (teardown_reply (p.teardown_by_branch name))
    else if not (texts_eq name hook.git_branch) && match_triggers ts kind_preview name
    then some (ensure_reply (p.ensure_preview name))
    else none

-- The secret of the app, or the answer to a delivery that cannot be checked.
abbrev pub secret_of : Option (Text → Option Text) → Bool → Text → Response ⊎ Text
secret_of box false sealed = inl (reply 404 "not found")
secret_of box true [] = inl (reply 404 "not found")
secret_of none true (s ∷ ss) = inl (reply 503 "VAC_MASTER_KEY not configured")
secret_of (some open_secret) true (s ∷ ss) = elim (open_secret (s ∷ ss)) [
  | none ↦ inl (reply 500 "could not read webhook secret")
  | some secret ↦ inr secret
]

module _ {Schedule : Type 0} (decode : List ℕ → Option (List Schedule))
    (allows : ℕ → List Schedule → Bool) where
  -- Whether the windows parse and none of them is open.
  abbrev pub is_shut : ℕ → List ℕ → Bool
  is_shut now raw = elim (parse_windows decode allows raw) [
    | none ↦ false
    | some windows ↦ not (allows now windows)
  ]

module _ (delete_fields : List ℕ → Option (Text × Bool)) (previews : Option Previews)
    {Schedule : Type 0} (decode : List ℕ → Option (List Schedule))
    (allows : ℕ → List Schedule → Bool) where
  -- The handler for a ref that was extracted.
  unfoldable pub on_ref :
      (id now app_id : ℕ) → Hook → Delivery → (kind name : Text) → Control → Control × Response
  on_ref id now app_id hook v kind name c =
      if not (git_ref_ok name) then (c, reply 200 "ignored") else elim hook.triggers [
        | none ↦ (c, reply 500 "could not load triggers")
        | some ts ↦ elim (preview_fork delete_fields previews hook v.body ts kind name) [
          | some r ↦ (c, r)
          | none ↦
              if not (match_triggers ts kind name)
              then (c, reply 200 "ignored")
              else webhook_deploy id now app_id (triggered_by kind) (needs_approval ts kind name)
                  (is_shut decode allows now (window_of app_id c.db.apps)) c
        ]
      ]

  unfoldable pub webhook :
      (hmac : Text → Text → Text) (box : Option (Text → Option Text)) (ref_field : List ℕ → Text)
      → (id now app_id : ℕ) → Hook
      → Delivery
      → Control
      → Control × Response
  webhook hmac box ref_field id now app_id hook v c =
      elim (secret_of box (has_app app_id c.db) hook.sealed_secret) [
        | inl r ↦ (c, r)
        | inr secret ↦
            if not (verify hmac secret v.body v.headers)
            then (c, reply 401 "invalid signature")
            else elim (extract_ref ref_field v.body v.query) [
              | none ↦ (c, reply 200 "ignored")
              | some ref ↦ on_ref id now app_id hook v (parse_ref ref).0 (parse_ref ref).1 c
            ]
      ]
