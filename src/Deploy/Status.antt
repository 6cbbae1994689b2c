-- ===== src/Deploy/Status.antt =====
-- api/internal/deploy/status.go. The status strings are enumerations that the Go side owns, so
-- each is a data type with the source's constants for its constructors.
pub mod Laws
mod Tests
use text.Mathlib.Text.{◌==◌}
use vac.Prelude.{
  Bool, true, false, not, ◌&&◌, ◌||◌, List, [], ◌∷◌, String, any, if◌then◌else◌, Option, none, some,
}

pub data DeploymentStatus : Type 0 where
  queued cloning building deploying health_checking running error interrupted canceled scheduled
        pending_approval :
      DeploymentStatus

-- IsTerminalDeploymentStatus
abbrev pub is_terminal : DeploymentStatus → Bool
is_terminal running = true
is_terminal error = true
is_terminal interrupted = true
is_terminal canceled = true
is_terminal _ = false

-- ServiceStatus*; the AppStatus* constants are the same strings.
pub data ServiceStatus : Type 0 where
  created building deploying running degraded crash_loop stopped error : ServiceStatus

-- The five flags of the loop in DeriveAppStatus.
pub record Seen : Type 0 where
  pub all_running : Bool
  pub has_building : Bool
  pub has_deploying : Bool
  pub has_error : Bool
  pub has_degraded : Bool

abbrev nothing_seen : Seen
nothing_seen = record {
  all_running = true;
  has_building = false;
  has_deploying = false;
  has_error = false;
  has_degraded = false;
}

-- One turn of the loop; `none` is the early return of crash-loop.
see : Seen → ServiceStatus → Option Seen
see f running = some f
see f crash_loop = none
see f building = some (record f { all_running = false; has_building = true })
see f deploying = some (record f { all_running = false; has_deploying = true })
see f error = some (record f { all_running = false; has_error = true })
see f stopped = some (record f { all_running = false; has_degraded = true })
see f degraded = some (record f { all_running = false; has_degraded = true })
see f created = some (record f { all_running = false })

see_all : Seen → List ServiceStatus → Option Seen
unfolding see
see_all f [] = some f
see_all f (s ∷ ss) = elim (see f s) [ none ↦ none | some g ↦ see_all g ss ]

-- The switch behind the loop.
settle : Seen → ServiceStatus
settle f =
    if f.all_running
    then running
    else if f.has_building
    then building
    else if f.has_deploying
    then deploying
    else if f.has_error
    then error
    else if f.has_degraded
    then degraded
    else degraded

unfoldable pub derive_app_status : List ServiceStatus → ServiceStatus
unfolding see_all settle
derive_app_status [] = created
derive_app_status (s ∷ ss) = elim (see_all nothing_seen (s ∷ ss)) [
  | none ↦ crash_loop
  | some f ↦ settle f
]

-- MapPsStateToServiceStatus, from the State column of `docker compose ps`.
unfoldable pub map_ps_state : String → ServiceStatus
map_ps_state state =
    if state == "running"
    then running
    else if state == "exited" || state == "dead"
    then stopped
    else if state == "restarting"
    then deploying
    else if state == "paused"
    then stopped
    else if state == "created"
    then created
    else created
