-- ===== src/Webhook/Window/Tests.antt =====
-- Deploy windows in the week of Samples.
use vac.Webhook.Window.Open.{opened_on, open_for, span, contains-since_opening, unnamed}
use vac.Webhook.Window.Validate.{validate_windows_sound}
use vac.Webhook.Samples.{no_zone, nightly, week, dead, saturday, week-IsLocal}
use vac.Prelude.{
  cut, atoi, ℕ, ◌≡◌, ◌+◌, false, some, ◌∷◌, ◌<◌, [], refl, none, true, inl, ◌↔◌, ◌≢◌, ℤ, ◌⊎◌, In,
  pos, ◌≤◌,
}
use vac.Webhook.Window.{allows, contains, parse_hm, validate_windows, problem_of}

nightly_tail : allows 0 no_zone week saturday (nightly ∷ []) ≡ true
unfolding allows contains parse_hm cut atoi
nightly_tail = refl

nightly_closed : allows 0 no_zone week (saturday + 1) (nightly ∷ []) ≡ false
unfolding allows contains parse_hm cut atoi
nightly_closed = refl

-- A schedule of one window with the same time written in two ways is stored, and never open.
dead_stored : validate_windows 0 no_zone week (dead ∷ []) ≡ none
unfolding validate_windows problem_of parse_hm cut atoi
dead_stored = refl

dead_closed : (now : ℕ) → contains 0 no_zone week dead now ≡ false
unfolding contains parse_hm cut atoi
dead_closed now = refl

-- 22:00 and 06:00
abbrev opens_at : ℕ
opens_at = 1320

abbrev closes_at : ℕ
closes_at = 360

contains-since_opening_example : (contains 0 no_zone week nightly saturday ≡ true) ↔ (
    (opens_at ≢ closes_at)
    × (((nightly.days ≡ []) ⊎ In (pos (opened_on 1320 (week 0 saturday))) nightly.days)
        × (open_for 1320 (week 0 saturday) < span 1320 360)))
unfolding parse_hm cut atoi
contains-since_opening_example =
    contains-since_opening 0 no_zone week week-IsLocal nightly 0 saturday 1320 360 unnamed refl refl

validate_windows_sound_example :
    (start : ℕ) × (end : ℕ) × (parse_hm nightly.start ≡ some start)
    × (parse_hm nightly.end ≡ some end)
    × (start < 1440)
    × (end < 1440)
    × (nightly.start ≢ nightly.end)
    × ((d : ℤ) → In d nightly.days → (n : ℕ) × ((d ≡ pos n) × (n ≤ 6)))
    × ((nightly.tz ≡ []) ⊎ ((z : ℕ) × (no_zone nightly.tz ≡ some z)))
unfolding validate_windows problem_of parse_hm cut atoi
validate_windows_sound_example =
    validate_windows_sound 0 no_zone week (nightly ∷ []) nightly refl (inl refl)
