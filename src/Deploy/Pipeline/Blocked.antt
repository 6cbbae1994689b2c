-- ===== src/Deploy/Pipeline/Blocked.antt =====
-- The preflight of a compose document that reaches for the host, in a run of
-- api/internal/deploy/pipeline.go.
use vac.Prelude.{String, Text, ℕ, List, Option, ◌≡◌, inr, ◌∷◌, In, [], Bool, if◌then◌else◌, ◌&&◌}
use vac.Deploy.Pipeline.{Call, World, PipelineApp, maintenance_off}
use vac.Deploy.Pipeline.Steps.{Outcome, ◌>>=◌, try, Exec, ◌>>◌, give}
use vac.Deploy.Pipeline.Silent.{Silent}
use vac.Deploy.Pipeline.Stack.{Verdict, blocked, preflight}
use vac.Deploy.Pipeline.Deploy.{maintain_off, decide, settle_failure}
use vac.Compose.{Fields}
use vac.Compose.Views.{PreflightView}
use vac.Compose.Host.{EscapesHost}
use vac.Compose.Preflight.{parse_preflight_bytes}

-- A document that parses and has a service that reaches for the host.
abbrev pub IsDangerous : (Text → Option Fields) → Text → Type 0
IsDangerous unmarshal raw =
    (vs : List PreflightView) × ((parse_preflight_bytes unmarshal raw ≡ inr vs)
      × ((v : PreflightView) × (In v vs × EscapesHost v)))

abbrev IsBlocked : Verdict → Type 0
IsBlocked v = (text : String) × (v ≡ blocked text)

module _ (unmarshal : Text → Option Fields) where
  module _ (w : World) where
    -- The deferred functions, behind the rest of the run.
    abbrev pub deferred : (id : ℕ) → PipelineApp → Outcome Unit → Exec Unit
    deferred id app result =
        settle_failure w id app result >> (maintain_off w id app >> give result)

    -- The run of a deploy from the preflight on, with the deferred functions.
    abbrev pub from_preflight : (id : ℕ) → PipelineApp → (allow : Bool) → Exec Unit
    from_preflight id app allow =
        try (preflight unmarshal w allow >>= decide unmarshal w id app) >>= deferred id app

    -- The clear of a maintenance that the deploy raised.
    abbrev pub cleared : PipelineApp → List Call
    cleared app = if app.maintenance_auto && w.maintainer then maintenance_off ∷ [] else []
