-- ===== src/Webhook/Samples.antt =====
-- A week of UTC that starts on Sunday at minute 0, and two windows in it.
use vac.Webhook.Window.Open.{IsLocal}
use vac.Webhook.Window.{Window, Local}
use vac.Prelude.{Text, ℕ, ◌*◌, Option, [], pos, ◌+◌, ◌/◌, arith, none, ◌∷◌, ◌%◌}

abbrev pub week : ℕ → ℕ → Local
week z now = record {
  weekday = now / 1440 % 7;
  yesterday = (now / 1440 + 6) % 7;
  hour = now / 60 % 24;
  minute = now % 60;
}

pub week-IsLocal : (z : ℕ) (now : ℕ) → IsLocal (week z now)
week-IsLocal z now = record { hours = omega arith; minutes = omega arith }

abbrev pub no_zone : Text → Option ℕ
no_zone name = none

-- "22:00" to "06:00", opening on Fridays.
abbrev pub nightly : Window
nightly = record {
  days = pos 5 ∷ [];
  start = b'2' ∷ b'2' ∷ b':' ∷ b'0' ∷ b'0' ∷ [];
  end = b'0' ∷ b'6' ∷ b':' ∷ b'0' ∷ b'0' ∷ [];
  tz = [];
}

-- "9:00" to "09:00".
abbrev pub dead : Window
dead = record {
  days = [];
  start = b'9' ∷ b':' ∷ b'0' ∷ b'0' ∷ [];
  end = b'0' ∷ b'9' ∷ b':' ∷ b'0' ∷ b'0' ∷ [];
  tz = [];
}

-- Saturday, 05:59.
abbrev pub saturday : ℕ
saturday = 6 * 1440 + 359
