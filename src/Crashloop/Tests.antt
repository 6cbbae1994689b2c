-- ===== src/Crashloop/Tests.antt =====
-- The monitor with a threshold of two, over deaths of one service of the project vac-a.
use vac.Crashloop.Rearm.{reset_project-reset, NoSlash}
use vac.Crashloop.Once.{watch, stops, watch-stops_once}
use vac.Crashloop.Window.{after_deaths, live, oldest_first, after_deaths-keep}
use vac.Prelude.{
  List, Text, count, ℕ, Option, none, ◌∷◌, [], false, strip_prefix, true, ◌++◌, some, ◌≡◌, ◌+◌,
  keep, atoi, ◌≤◌, refl, arith, ascii,
}
use vac.Crashloop.{
  Event, Monitor, die, handle, key_of, MonitoredApp, vac_prefix, config, maybe_handle_oom,
  count_death, reset_project, reset,
}

abbrev death : ℕ → Event
death time = record {
  action = die;
  project = vac_prefix ++ b'a' ∷ [];
  service = b's' ∷ [];
  exit_code = b'1' ∷ [];
  container = 7 ∷ [];
  time = time;
}

abbrev idle : Monitor
idle = record { windows = λ k. none; tripped = λ k. false; oom_notified = λ k. false }

abbrev an_app : Text → Option MonitoredApp
an_app slug = some (record { id = 1; mem_limit = none })

abbrev deaths : List Event
deaths = death 1 ∷ death 20 ∷ death 25 ∷ death 26 ∷ []

abbrev service_key : Text
service_key = key_of (vac_prefix ++ b'a' ∷ []) (b's' ∷ [])

-- The second of two deaths within ten nanoseconds stops the service, the one after it does nothing.
stopped_once : count (stops service_key) (watch an_app none true (config 2 10) deaths idle).1 ≡ 1
unfolding watch handle strip_prefix maybe_handle_oom count_death atoi
stopped_once = refl

after_deaths-keep_example :
    after_deaths 10 (25 ∷ 20 ∷ 1 ∷ []) ≡ keep (live 10 25) (oldest_first (25 ∷ 20 ∷ 1 ∷ []))
after_deaths-keep_example = after_deaths-keep 10 25 (20 ∷ 1 ∷ []) (omega arith) refl

watch-stops_once_example :
    count (stops service_key) (watch an_app none true (config 2 10) deaths idle).1 + 0 ≤ 1
watch-stops_once_example =
    watch-stops_once an_app none true (config 2 10) service_key deaths idle refl

slashless_a : NoSlash (ascii "vac-a")
slashless_a = (
  λ e. ground arith,
  (λ e. ground arith, (λ e. ground arith, (λ e. ground arith, (λ e. ground arith, tt)))),
)

slashless_ab : NoSlash (ascii "vac-ab")
slashless_ab = (
  λ e. ground arith,
  (
    λ e. ground arith,
    (λ e. ground arith, (λ e. ground arith, (λ e. ground arith, (λ e. ground arith, tt)))),
  ),
)

reset_project-reset_example :
    let m = reset_project (ascii "vac-a") idle in
    let key = key_of (ascii "vac-a") (ascii "web") in
    let away = key_of (ascii "vac-ab") (ascii "web") in
    (m.windows key ≡ none)
    × (m.tripped key ≡ false)
    × (m.oom_notified key ≡ false)
    × ((reset (ascii "vac-a") (ascii "web") idle).windows key ≡ none)
    × ((reset (ascii "vac-a") (ascii "web") idle).tripped key ≡ false)
    × ((reset (ascii "vac-a") (ascii "web") idle).oom_notified key ≡ false)
    × (m.windows away ≡ idle.windows away)
    × (m.tripped away ≡ idle.tripped away)
    × (m.oom_notified away ≡ idle.oom_notified away)
reset_project-reset_example =
    reset_project-reset (ascii "vac-a") (ascii "web") (ascii "vac-ab") (ascii "web") idle
      slashless_a slashless_ab (λ e. absurd cc)
