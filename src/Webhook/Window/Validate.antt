-- ===== src/Webhook/Window/Validate.antt =====
-- ValidateWindows of api/internal/webhook/deploywindow.go: what holds of a schedule that is stored.
use mathlib.Core.Bool.{false≢true}
use vac.Webhook.Window.Open.{parse_hm-bound}
use vac.Webhook.Window.{
  Local, problem_of, validate_windows, Window, parse_hm, bad_day, known_zone, is_weekday,
}
use vac.Prelude.{
  Text, Option, ℕ, List, ◌≡◌, none, In, some, ◌<◌, texts_eq, false, true, Option-cases, ◌∷◌, inr,
  inl, arith, subst, sym, [], ℤ, ◌≢◌, ◌⊎◌, pos, ◌∙◌, refl, ap, ◌≤◌, Bool-cases, texts_eq_refl,
  negsuc,
}

weekday : (d : ℤ) → is_weekday d ≡ true → (n : ℕ) × ((d ≡ pos n) × (n ≤ 6))
weekday (pos n) h = (n, (refl, ground arith))
weekday (negsuc n) h = absurd cc

good_day :
    (days : List ℤ) → bad_day days ≡ none → (d : ℤ) → In d days → (n : ℕ) × ((d ≡ pos n) × (n ≤ 6))
good_day [] h d i = elim i [ ]
good_day (e ∷ es) h d i = elim (Bool-cases (is_weekday e)) [
  | inr bad ↦ absurd (ground (arith, bad, h))
  | inl y ↦ elim i [
    | inl same ↦ weekday d (ap is_weekday same ∙ y)
    | inr later ↦ good_day es (rw y at h) d later
  ]
]

apart_texts : (s t : Text) → texts_eq s t ≡ false → s ≢ t
apart_texts s t h e = false≢true (sym h ∙ (ap (λ (u : Text). texts_eq u t) e ∙ texts_eq_refl t))

module _ {Zone : Type 0} (utc : Zone) (load_location : Text → Option Zone)
    (clock : Zone → ℕ → Local) where
  validated :
      (w : Window)
      → problem_of utc load_location clock w ≡ none
      → (start : ℕ) × (end : ℕ) × (parse_hm w.start ≡ some start)
        × (parse_hm w.end ≡ some end)
        × (texts_eq w.start w.end ≡ false)
        × (bad_day w.days ≡ none)
        × (known_zone utc load_location clock w.tz ≡ true)
  unfolding problem_of
  validated w h = elim (Option-cases (parse_hm w.start)) [
    | inl no_start ↦ absurd (ground arith)
    | inr (start, s) ↦ elim (Option-cases (parse_hm w.end)) [
      | inl no_end ↦ absurd (ground arith)
      | inr (end, e) ↦ elim (Option-cases (bad_day w.days)) [
        | inr (d, bad) ↦ absurd (ground arith)
        | inl days ↦ (start, end, s, e, ground arith, days, ground arith)
      ]
    ]
  ]

  zone_loads :
      (tz : Text)
      → known_zone utc load_location clock tz ≡ true
      → (tz ≡ []) ⊎ ((z : Zone) × (load_location tz ≡ some z))
  zone_loads [] h = inl refl
  zone_loads (c ∷ cs) h = elim (Option-cases (load_location (c ∷ cs))) [
    | inl unknown ↦ absurd (ground arith)
    | inr (z, e) ↦ inr (z, e)
  ]

  -- In a schedule that ValidateWindows lets pass, every window has two times of day that parse and
  -- are written differently, only weekdays from 0 to 6, and no time zone or one that can be loaded.
  pub validate_windows_sound :
      (ws : List Window) (w : Window)
      → validate_windows utc load_location clock ws ≡ none
      → In w ws
      → (start : ℕ) × (end : ℕ) × (parse_hm w.start ≡ some start)
        × (parse_hm w.end ≡ some end)
        × (start < 1440)
        × (end < 1440)
        × (w.start ≢ w.end)
        × ((d : ℤ) → In d w.days → (n : ℕ) × ((d ≡ pos n) × (n ≤ 6)))
        × ((w.tz ≡ []) ⊎ ((z : Zone) × (load_location w.tz ≡ some z)))
  unfolding validate_windows
  validate_windows_sound [] w h m = elim m [ ]
  validate_windows_sound (v ∷ vs) w h m =
      elim (Option-cases (problem_of utc load_location clock v)) [
        | inr (p, bad) ↦ absurd (ground arith)
        | inl good ↦ elim m [
          | inr later ↦ validate_windows_sound vs w (ground arith) later
          | inl here ↦
              let (start, end, s, e, apart, days, zone) =
                validated w
                  (subst (λ x. problem_of utc load_location clock x ≡ none) (sym here) good) in
              (
                start,
                end,
                s,
                e,
                parse_hm-bound w.start s,
                parse_hm-bound w.end e,
                apart_texts w.start w.end apart,
                (λ d i. good_day w.days days d i),
                zone_loads w.tz zone,
              )
        ]
      ]
