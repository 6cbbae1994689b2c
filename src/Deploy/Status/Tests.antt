-- ===== src/Deploy/Status/Tests.antt =====
-- Runs of the status functions, and the table at a list with two kinds of trouble.
use vac.Prelude.{List, [], ◌∷◌, ◌≡◌, refl}
use vac.Deploy.Status.{
  ServiceStatus, building, running, crash_loop, stopped, error, derive_app_status, map_ps_state,
}
use vac.Deploy.Status.Laws.{expected, derive_app_status-expected}

abbrev mixed : List ServiceStatus
mixed = running ∷ error ∷ building ∷ stopped ∷ []

derive_mixed : derive_app_status mixed ≡ building
unfolding derive_app_status
derive_mixed = refl

derive_crashed : derive_app_status (stopped ∷ crash_loop ∷ mixed) ≡ crash_loop
unfolding derive_app_status
derive_crashed = refl

ps_dead : map_ps_state "dead" ≡ stopped
unfolding map_ps_state
ps_dead = refl

derive_app_status-expected_example : derive_app_status mixed ≡ expected mixed
derive_app_status-expected_example = derive_app_status-expected mixed
