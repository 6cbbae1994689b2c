-- ===== src/Crashloop.antt =====
-- api/internal/crashloop/monitor.go: the per-service windows, trip flags and OOM flags of the
-- monitor, and what it asks of Docker, the store and the notifier. A time is a number of nanoseconds.
-- Errors of the store and of Docker other than an unknown app are only logged, and so are no part of
-- the effects; the text of the log rows is left out.
pub mod Window
pub mod Once
pub mod Rearm
mod Tests
use vac.Prelude.{
  Option, Text, ℕ, ◌++◌, Bool, List, if◌then◌else◌, none, ℤ, ◌∷◌, ◌==◌, [], atoi, false, ltb, some,
  strip_prefix, texts_eq, true, ◌&&◌, ◌+◌, is_nat, not, ◌||◌, leb, length, is_some,
}

pub data Action : Type 0 where
  destroy die other : Action

-- dockercli.Event, with its two compose labels and its exitCode attribute.
pub record Event : Type 0 where
  pub action : Action
  pub project : Text
  pub service : Text
  pub exit_code : Text
  pub container : Text  -- Actor.ID, or ID where that is empty
  pub time : ℕ

pub record MonitoredApp : Type 0 where
  pub id : ℕ
  pub mem_limit : Option ℕ

pub record Config : Type 0 where
  pub threshold : ℕ
  pub window : ℕ

-- New: values that are not positive get the defaults, five restarts and two minutes.
abbrev pub config : (threshold window : ℕ) → Config
config threshold window = record {
  threshold = if threshold == 0 then 5 else threshold;
  window = if window == 0 then 120000000000 else window;
}

pub record Monitor : Type 0 where
  pub windows : Text → Option (List ℕ)
  pub tripped : Text → Bool
  pub oom_notified : Text → Bool

pub data Effect : Type 0 where
  stop : (key : Text) → Effect
  mark_crash_loop : (app_id : ℕ) (service : Text) → Option ℤ → Effect
  increment_restart : (app_id : ℕ) (service : Text) → Effect
  log_crash_loop : (app_id : ℕ) (service : Text) (restarts : ℕ) → Option ℤ → Effect
  notify_crash_loop : (app_id : ℕ) (service : Text) (restarts : ℕ) → Option ℤ → Effect
  increment_oom : (app_id : ℕ) (service : Text) → Effect
  log_oom : (app_id : ℕ) (service : Text) (limit : ℕ) → Effect
  notify_oom : (app_id : ℕ) (service : Text) (limit : ℕ) → Effect

abbrev pub put : {A : Type 0} → Text → A → (Text → A) → Text → A
put key v m j = if texts_eq j key then v else m j

abbrev pub vac_prefix : Text
vac_prefix = b'v' ∷ b'a' ∷ b'c' ∷ b'-' ∷ []

abbrev pub key_of : (project service : Text) → Text
key_of project service = project ++ b'/' ∷ service

-- parseExitCode: an empty text is none for Atoi as well.
abbrev pub parse_exit_code : Text → Option ℤ
parse_exit_code s = atoi s

-- window.trim: the events from the first one on that is after now - max_age.
abbrev pub trim : (max_age now : ℕ) → List ℕ → List ℕ
trim max_age now [] = []
trim max_age now (e ∷ es) = if ltb now (e + max_age) then e ∷ es else trim max_age now es

-- window.record
abbrev pub record_death : (max_age t : ℕ) → List ℕ → List ℕ
record_death max_age t events = trim max_age t (events ++ t ∷ [])

abbrev pub or_empty : Option (List ℕ) → List ℕ
or_empty none = []
or_empty (some events) = events

-- The test of the exit code for an abnormal exit.
abbrev pub is_clean : Option ℤ → Bool
is_clean none = false
is_clean (some n) = is_nat n 0

abbrev pub is_oom_code : Option ℤ → Bool
is_oom_code none = false
is_oom_code (some n) = is_nat n 137

abbrev pub forget : Text → Monitor → Monitor
forget key m = record {
  windows = put key none m.windows;
  tripped = put key false m.tripped;
  oom_notified = put key false m.oom_notified;
}

-- Reset
unfoldable pub reset : (project service : Text) → Monitor → Monitor
reset project service m = forget (key_of project service) m

abbrev pub in_project : (project key : Text) → Bool
in_project project key = is_some (strip_prefix (project ++ b'/' ∷ []) key)

-- ResetProject
unfoldable pub reset_project : (project : Text) → Monitor → Monitor
reset_project project m = record {
  windows = λ k. if in_project project k then none else m.windows k;
  tripped = λ k. if in_project project k then false else m.tripped k;
  oom_notified = λ k. if in_project project k then false else m.oom_notified k;
}

module _ (apps : Text → Option MonitoredApp) (inspect : Option (Text → Bool)) (notifies : Bool)
    (cfg : Config) where
  abbrev pub crash_effects : MonitoredApp → (key : Text) → Event → (restarts : ℕ) → List Effect
  crash_effects app key ev restarts =
      stop key
      ∷ mark_crash_loop app.id ev.service (parse_exit_code ev.exit_code)
      ∷ increment_restart app.id ev.service
      ∷ log_crash_loop app.id ev.service restarts (parse_exit_code ev.exit_code)
      ∷ (if notifies
          then notify_crash_loop app.id ev.service restarts (parse_exit_code ev.exit_code) ∷ []
          else [])

  -- trip, where `slug` is the project without its prefix.
  abbrev pub trip : (slug key : Text) → Event → (restarts : ℕ) → List Effect
  trip slug key ev restarts = elim (apps slug) [
    | none ↦ []
    | some app ↦ crash_effects app key ev restarts
  ]

  abbrev pub limit_of : MonitoredApp → ℕ
  limit_of app = elim app.mem_limit [ none ↦ 0 | some mb ↦ mb ]

  abbrev pub oom_effects : Option MonitoredApp → Event → (first_this_episode : Bool) → List Effect
  oom_effects none ev first_this_episode = []
  oom_effects (some app) ev first_this_episode =
      increment_oom app.id ev.service
      ∷ (if first_this_episode
          then log_oom app.id ev.service (limit_of app)
            ∷ (if notifies then notify_oom app.id ev.service (limit_of app) ∷ [] else [])
          else [])

  -- The guards of maybeHandleOOM, the inspection included.
  abbrev pub is_oom : Event → Bool
  is_oom ev = elim inspect [
    | none ↦ false
    | some killed ↦
        is_oom_code (parse_exit_code ev.exit_code)
        && (not (texts_eq ev.container []) && killed ev.container)
  ]

  -- maybeHandleOOM
  unfoldable pub maybe_handle_oom : (slug key : Text) → Event → Monitor → Monitor × List Effect
  maybe_handle_oom slug key ev m =
      if is_oom ev
      then (
        record m { oom_notified = put key true m.oom_notified },
        oom_effects (apps slug) ev (not (m.oom_notified key)),
      )
      else (m, [])

  -- The counted half of handle: an abnormal exit of a service that has not tripped.
  unfoldable pub count_death : (slug key : Text) → Event → Monitor → Monitor × List Effect
  count_death slug key ev m =
      let events = record_death cfg.window ev.time (or_empty (m.windows key)) in
      let counted = record m { windows = put key (some events) m.windows } in
      if is_clean (parse_exit_code ev.exit_code) || m.tripped key
      then (m, [])
      else if leb cfg.threshold (length events)
      then (record counted { tripped = put key true m.tripped }, trip slug key ev (length events))
      else (counted, [])

  abbrev pub handle_die : (slug key : Text) → Event → Monitor → Monitor × List Effect
  handle_die slug key ev m =
      let (seen, oom) = maybe_handle_oom slug key ev m in
      let (counted, crash) = count_death slug key ev seen in (counted, oom ++ crash)

  abbrev pub act : Action → (slug key : Text) → Event → Monitor → Monitor × List Effect
  act destroy slug key ev m = (forget key m, [])
  act die slug key ev m = handle_die slug key ev m
  act other slug key ev m = (m, [])

  unfoldable pub handle : Event → Monitor → Monitor × List Effect
  handle ev m = elim (strip_prefix vac_prefix ev.project) [
    | none ↦ (m, [])
    | some slug ↦
        if texts_eq ev.service []
        then (m, [])
        else act ev.action slug (key_of ev.project ev.service) ev m
  ]
