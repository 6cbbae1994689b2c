-- ===== src/Crashloop/Rearm.antt =====
-- Reset and ResetProject of api/internal/crashloop/monitor.go.
use vac.Prelude.{
  Text, strip_prefix, All, ◌≡◌, ◌≢◌, false, none, true, Bool-cases, texts_eq_refl, ◌∷◌, arith, inl,
  refl, ==_refl, inr, [], ◌==◌,
}
use vac.Crashloop.{reset_project, reset, Monitor, in_project, key_of}

in_project-key_of : (project service : Text) → in_project project (key_of project service) ≡ true
unfolding strip_prefix
in_project-key_of [] service = refl
in_project-key_of (c ∷ cs) service =
    let rest = in_project-key_of cs service in ground (arith, rest, ==_refl c)

-- A compose project has no slash in its name.
abbrev pub NoSlash : Text → Type 0
NoSlash project = All (λ c. c ≢ b'/') project

in_project-same :
    (project other service : Text)
    → NoSlash project
    → NoSlash other
    → in_project project (key_of other service) ≡ true
    → other ≡ project
unfolding strip_prefix
in_project-same [] [] service a b h = refl
in_project-same [] (d ∷ ds) service a b h = elim (Bool-cases (d == b'/')) [
  | inl y ↦ absurd (b.0 (ground arith))
  | inr n ↦ absurd (ground (arith, n, h))
]
in_project-same (c ∷ cs) [] service a b h = elim (Bool-cases (b'/' == c)) [
  | inl y ↦ absurd (a.0 (ground arith))
  | inr n ↦ absurd (ground (arith, n, h))
]
in_project-same (c ∷ cs) (d ∷ ds) service a b h = elim (Bool-cases (d == c)) [
  | inl y ↦
      let rest = in_project-same cs ds service a.1 b.1 (rw y at h) in
      let here : d ≡ c = ground arith in rw (here, rest) refl
  | inr n ↦ absurd (ground (arith, n, h))
]

in_project-other :
    (project other service : Text)
    → NoSlash project
    → NoSlash other
    → other ≢ project
    → in_project project (key_of other service) ≡ false
in_project-other project other service a b apart =
    elim (Bool-cases (in_project project (key_of other service))) [
      | inl y ↦ absurd (apart (in_project-same project other service a b y))
      | inr n ↦ n
    ]

-- ResetProject does to every service of the project what Reset does to the one: its window, its trip
-- flag and its OOM flag are as for a service that was never seen. For the services of every other project,
-- where neither project's name has a slash, it leaves the three as they are.
pub reset_project-reset :
    (project service other stranger : Text) (m : Monitor)
    → NoSlash project
    → NoSlash other
    → other ≢ project
    → let key = key_of project service in
      let away = key_of other stranger in
      ((reset_project project m).windows key ≡ none)
      × ((reset_project project m).tripped key ≡ false)
      × ((reset_project project m).oom_notified key ≡ false)
      × ((reset project service m).windows key ≡ none)
      × ((reset project service m).tripped key ≡ false)
      × ((reset project service m).oom_notified key ≡ false)
      × ((reset_project project m).windows away ≡ m.windows away)
      × ((reset_project project m).tripped away ≡ m.tripped away)
      × ((reset_project project m).oom_notified away ≡ m.oom_notified away)
unfolding reset_project reset
reset_project-reset project service other stranger m a b apart =
    let mine = in_project-key_of project service in
    let own = texts_eq_refl (key_of project service) in
    let theirs = in_project-other project other stranger a b apart in
    (
      rw mine refl,
      rw mine refl,
      rw mine refl,
      rw own refl,
      rw own refl,
      rw own refl,
      rw theirs refl,
      rw theirs refl,
      rw theirs refl,
    )
