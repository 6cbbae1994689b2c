-- ===== src/Crashloop/Once.antt =====
-- How often api/internal/crashloop/monitor.go stops a service.
use vac.Crashloop.{
  Event, stop, Effect, MonitoredApp, Config, count_death, Action, Monitor, key_of, oom_effects,
  handle, destroy, maybe_handle_oom, handle_die, is_oom, put, act, die, vac_prefix, other,
}
use vac.Prelude.{
  Text, Option, Bool, List, ◌&&◌, count, texts_eq, ◌+◌, false, true, ◌∷◌, if◌then◌else◌, ◌≡◌, ◌++◌,
  arith, ◌≤◌, texts_eq_sound, [], texts_eq_refl, any, ℕ, ||-eq-false, Bool-cases, count-append, inr,
  inl, not, Option-cases, strip_prefix,
}

abbrev pub stops : Text → Effect → Bool
stops key (stop k) = texts_eq k key
stops key _ = false

abbrev is_destroy : Action → Bool
is_destroy destroy = true
is_destroy _ = false

-- Whether the event is the removal of the service's container.
abbrev pub removes : Text → Event → Bool
removes key ev = is_destroy ev.action && texts_eq (key_of ev.project ev.service) key

module _ (apps : Text → Option MonitoredApp) (inspect : Option (Text → Bool)) (notifies : Bool)
    (cfg : Config) where
  -- The monitor over a list of events, and all that it asks for.
  unfoldable pub watch : List Event → Monitor → Monitor × List Effect
  watch [] m = (m, [])
  watch (ev ∷ evs) m =
      let (m', effects) = handle apps inspect notifies cfg ev m in
      let (m'', rest) = watch evs m' in (m'', effects ++ rest)

  oom-stops :
      (app : Option MonitoredApp) (ev : Event) (b : Bool) (key : Text)
      → count (stops key) (oom_effects apps inspect notifies cfg app ev b) ≡ 0
  oom-stops app ev b key = ground arith

  count_death-stops :
      (slug k key : Text) (ev : Event) (m : Monitor)
      → count (stops key) (count_death apps inspect notifies cfg slug k ev m).1
          + (if m.tripped key then 1 else 0)
        ≤ (if (count_death apps inspect notifies cfg slug k ev m).0.tripped key then 1 else 0)
  unfolding count_death
  count_death-stops slug k key ev m =
      ground (arith, texts_eq_sound k key, texts_eq_sound key k, texts_eq_refl key)

  abbrev flag : Text → Monitor → ℕ
  flag key m = if m.tripped key then 1 else 0

  handle_die-stops :
      (slug k key : Text) (ev : Event) (m : Monitor)
      → count (stops key) (handle_die apps inspect notifies cfg slug k ev m).1 + flag key m
        ≤ flag key (handle_die apps inspect notifies cfg slug k ev m).0
  unfolding maybe_handle_oom
  handle_die-stops slug k key ev m = elim (Bool-cases (is_oom apps inspect notifies cfg ev)) [
    | inr no_oom ↦ let counted = count_death-stops slug k key ev m in rw no_oom counted
    | inl oom ↦
        let seen = record m { oom_notified = put k true m.oom_notified } in
        let counted = count_death-stops slug k key ev seen in
        let effects =
          oom_effects apps inspect notifies cfg (apps slug) ev (not (m.oom_notified k)) in
        let crash = (count_death apps inspect notifies cfg slug k ev seen).1 in
        let none_of_them = oom-stops (apps slug) ev (not (m.oom_notified k)) key in
        let total : count (stops key) (effects ++ crash) ≡ count (stops key) crash =
          omega (arith, count-append (stops key) effects crash, none_of_them) in
        rw oom (rw total counted)
  ]

  act-stops :
      (a : Action) (slug k key : Text) (ev : Event) (m : Monitor)
      → (is_destroy a && texts_eq k key) ≡ false
      → count (stops key) (act apps inspect notifies cfg a slug k ev m).1 + flag key m
        ≤ flag key (act apps inspect notifies cfg a slug k ev m).0
  act-stops destroy slug k key ev m h = ground (arith, texts_eq_sound key k, texts_eq_refl key)
  act-stops die slug k key ev m h = handle_die-stops slug k key ev m
  act-stops other slug k key ev m h = omega arith

  handle-stops :
      (key : Text) (ev : Event) (m : Monitor)
      → removes key ev ≡ false
      → count (stops key) (handle apps inspect notifies cfg ev m).1 + flag key m
        ≤ flag key (handle apps inspect notifies cfg ev m).0
  unfolding handle strip_prefix
  handle-stops key ev m h = elim (Option-cases (strip_prefix vac_prefix ev.project)) [
    | inl foreign ↦ rw foreign (omega arith)
    | inr (slug, ours) ↦ elim (Bool-cases (texts_eq ev.service [])) [
      | inl unnamed ↦ rw (ours, unnamed) (omega arith)
      | inr named ↦
          rw (ours, named) (act-stops ev.action slug (key_of ev.project ev.service) key ev m h)
    ]
  ]

  watch-stops :
      (key : Text) (evs : List Event) (m : Monitor)
      → any (removes key) evs ≡ false
      → count (stops key) (watch evs m).1 + flag key m ≤ flag key (watch evs m).0
  unfolding watch
  watch-stops key [] m h = omega arith
  watch-stops key (ev ∷ evs) m h =
      let m' = (handle apps inspect notifies cfg ev m).0 in
      let now = handle-stops key ev m (||-eq-false _ _ h).0 in
      let later = watch-stops key evs m' (||-eq-false _ _ h).1 in
      let total =
        count-append (stops key) (handle apps inspect notifies cfg ev m).1 (watch evs m').1 in
      rw total (omega (arith, now, later))

  -- A service is stopped at most once, and not at all if it has tripped before, over any events among
  -- which no container of the service is removed: the trip flag outlives every other event, whatever
  -- the threshold, the exit codes and the other services do.
  pub watch-stops_once :
      (key : Text) (evs : List Event) (m : Monitor)
      → any (removes key) evs ≡ false
      → count (stops key) (watch evs m).1 + (if m.tripped key then 1 else 0) ≤ 1
  watch-stops_once key evs m h = ground (arith, watch-stops key evs m h)
