-- ===== src/Webhook/Window.antt =====
-- api/internal/webhook/deploywindow.go. A text is its bytes. Go's time zones are parameters: what
-- time.LoadLocation answers for a name, and what a clock in a location shows at an instant.
-- `yesterday` is the weekday of AddDate(0, 0, -1).
pub mod Open
pub mod Validate
mod Tests
use vac.Prelude.{
  List, Text, ℕ, ℤ, Bool, Option, ◌*◌, if◌then◌else◌, none, true, ◌∷◌, ◌+◌, any, false, is_some,
  not, some, ◌==◌, is_nat, texts_eq, [], ltb, ◌&&◌, leb, cut, pos, atoi, ◌||◌, negsuc,
}

pub record Window : Type 0 where
  pub days : List ℤ
  pub start : Text
  pub end : Text
  pub tz : Text

pub record Local : Type 0 where
  pub weekday : ℕ
  pub yesterday : ℕ
  pub hour : ℕ
  pub minute : ℕ

-- dayMatches
abbrev pub day_matches : List ℤ → ℕ → Bool
day_matches [] day = true
day_matches (d ∷ ds) day = any (λ e. is_nat e day) (d ∷ ds)

-- The tests of parseHM on the two numbers.
abbrev pub minutes : ℤ → ℤ → Option ℕ
minutes (pos h) (pos m) = if ltb 23 h || ltb 59 m then none else some (h * 60 + m)
minutes _ _ = none

-- parseHM
unfoldable pub parse_hm : Text → Option ℕ
parse_hm s = elim (cut b':' s) [
  | none ↦ none
  | some (h, m) ↦ elim (atoi h) [
    | none ↦ none
    | some hh ↦ elim (atoi m) [ none ↦ none | some mm ↦ minutes hh mm ]
  ]
]

-- The body of contains behind the parsing.
abbrev pub covers : List ℤ → (start end : ℕ) → Local → Bool
covers days start end t =
    let mins = t.hour * 60 + t.minute in
    if start == end
    then false
    else if ltb start end
    then day_matches days t.weekday && leb start mins && ltb mins end
    else if leb start mins
    then day_matches days t.weekday
    else if ltb mins end
    then day_matches days t.yesterday
    else false

-- contains from the parsed times on: a malformed time never matches.
abbrev pub within : List ℤ → Option ℕ → Option ℕ → Local → Bool
within days (some start) (some end) t = covers days start end t
within days _ _ t = false

-- The error of ValidateWindows, without the number of the window.
pub data Problem : Type 0 where
  invalid_start invalid_end equal_times unknown_timezone : Problem
  invalid_weekday : ℤ → Problem

abbrev pub is_weekday : ℤ → Bool
is_weekday (pos n) = leb n 6
is_weekday (negsuc n) = false

abbrev pub bad_day : List ℤ → Option ℤ
bad_day [] = none
bad_day (d ∷ ds) = if is_weekday d then bad_day ds else some d

module _ {Zone : Type 0} (utc : Zone) (load_location : Text → Option Zone)
    (clock : Zone → ℕ → Local) where
  -- The location of a window: an empty or unknown name is UTC.
  abbrev pub zone_of : Text → Zone
  zone_of [] = utc
  zone_of (c ∷ cs) = elim (load_location (c ∷ cs)) [ none ↦ utc | some z ↦ z ]

  unfoldable pub contains : Window → ℕ → Bool
  contains w now = within w.days (parse_hm w.start) (parse_hm w.end) (clock (zone_of w.tz) now)

  unfoldable pub allows : ℕ → List Window → Bool
  allows now [] = true
  allows now (w ∷ ws) = any (λ v. contains v now) (w ∷ ws)

  abbrev pub known_zone : Text → Bool
  known_zone [] = true
  known_zone (c ∷ cs) = is_some (load_location (c ∷ cs))

  -- The turn of the loop of ValidateWindows for one window.
  unfoldable pub problem_of : Window → Option Problem
  problem_of w =
      if not (is_some (parse_hm w.start))
      then some invalid_start
      else if not (is_some (parse_hm w.end))
      then some invalid_end
      else if texts_eq w.start w.end
      then some equal_times
      else elim (bad_day w.days) [
        | some d ↦ some (invalid_weekday d)
        | none ↦ if known_zone w.tz then none else some unknown_timezone
      ]

  unfoldable pub validate_windows : List Window → Option Problem
  validate_windows [] = none
  validate_windows (w ∷ ws) = elim (problem_of w) [ some p ↦ some p | none ↦ validate_windows ws ]
