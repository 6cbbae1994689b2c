-- ===== src/Webhook/Window/Open.antt =====
-- When the deploy windows of api/internal/webhook/deploywindow.go are open.
use vac.Webhook.Window.{Local, parse_hm, minutes, contains, covers, Window, zone_of, day_matches}
use vac.Prelude.{
  pos, List, Text, ℕ, ℤ, ◌*◌, ◌<◌, Option, if◌then◌else◌, ◌≡◌, ◌+◌, leb, ltb, some, ◌-◌, not, ◌==◌,
  ◌&&◌, arith, Option-cases, cut, inl, inr, atoi, negsuc, [], ap, is_nat, true, ◌≢◌, ◌∷◌,
  Bool-cases, none, ◌↔◌, ◌⊎◌, refl, In, &&-eq-true, any_found, any_intro, ◌∙◌, ltb→lt, subst, sym,
  &&-true, lt→ltb,
}

-- What the clock of Go's time package keeps to.
pub record IsLocal (t : Local) : Type 0 where
  pub hours : t.hour < 24
  pub minutes : t.minute < 60

pub minutes-bound : (h m : ℤ) {n : ℕ} → minutes h m ≡ some n → n < 1440
minutes-bound (pos h) (pos m) e = ground arith
minutes-bound (pos h) (negsuc m) e = ground arith
minutes-bound (negsuc h) m e = ground arith

pub parse_hm-bound : (s : Text) {n : ℕ} → parse_hm s ≡ some n → n < 1440
unfolding parse_hm
parse_hm-bound s h = elim (Option-cases (cut b':' s)) [
  | inl uncut ↦ absurd (ground arith)
  | inr ((hs, ms), parts) ↦ elim (Option-cases (atoi hs)) [
    | inl no_hour ↦ absurd (ground arith)
    | inr (hh, hour) ↦ elim (Option-cases (atoi ms)) [
      | inl no_minute ↦ absurd (ground arith)
      | inr (mm, minute) ↦ minutes-bound hh mm (rw (parse_hm, parts, hour, minute) at h)
    ]
  ]
]

-- How long a window stays open: from start to the next end.
abbrev pub span : (start end : ℕ) → ℕ
span start end = if ltb start end then end - start else end + 1440 - start

-- The day on which the window opened last, and the minutes since then.
abbrev pub opened_on : (start : ℕ) → Local → ℕ
opened_on start t = if leb start (t.hour * 60 + t.minute) then t.weekday else t.yesterday

abbrev pub open_for : (start : ℕ) → Local → ℕ
open_for start t =
    let mins = t.hour * 60 + t.minute in
    if leb start mins then mins - start else mins + 1440 - start

covers-span :
    (days : List ℤ) (start end : ℕ) (t : Local)
    → IsLocal t
    → start < 1440
    → end < 1440
    → covers days start end t
      ≡ not (start == end)
        && (day_matches days (opened_on start t) && ltb (open_for start t) (span start end))
covers-span days start end t l s e = ground arith

is_nat_sound : (d : ℤ) (n : ℕ) → is_nat d n ≡ true → pos n ≡ d
is_nat_sound (pos m) n h = let e : n ≡ m = ground arith in rw e refl
is_nat_sound (negsuc m) n h = absurd (ground arith)

day_matches_sound :
    (days : List ℤ) (day : ℕ) → day_matches days day ≡ true → (days ≡ []) ⊎ In (pos day) days
day_matches_sound [] day h = inl refl
day_matches_sound (d ∷ ds) day h =
    let found = any_found (λ e. is_nat e day) (d ∷ ds) h in
    inr (subst (λ e. In e (d ∷ ds)) (sym (is_nat_sound found.0 day found.1.1)) found.1.0)

day_matches_complete :
    (days : List ℤ) (day : ℕ) → (days ≡ []) ⊎ In (pos day) days → day_matches days day ≡ true
day_matches_complete [] day h = refl
day_matches_complete (d ∷ ds) day (inl e) = absurd cc
day_matches_complete (d ∷ ds) day (inr i) = any_intro (λ e. is_nat e day) (d ∷ ds) i (ground arith)

apart_starts : (start end : ℕ) → start ≢ end → not (start == end) ≡ true
apart_starts start end h = elim (Bool-cases (start == end)) [
  | inl y ↦ absurd (h (ground arith))
  | inr n ↦ rw n refl
]

open_when :
    (days : List ℤ) (start end day spent : ℕ)
    → ((not (start == end) && (day_matches days day && ltb spent (span start end))) ≡ true)
      ↔ ((start ≢ end) × (((days ≡ []) ⊎ In (pos day) days) × (spent < span start end)))
open_when days start end day spent = (
  λ h.
      let first = &&-eq-true (not (start == end)) _ h in
      let second = &&-eq-true (day_matches days day) _ first.1 in
      (
        λ e. absurd (let n = first.0 in ground arith),
        (day_matches_sound days day second.0, ltb→lt spent (span start end) second.1),
      ),
  λ h.
      &&-true (apart_starts start end h.0)
        (&&-true (day_matches_complete days day h.1.0) (lt→ltb spent (span start end) h.1.1)),
)

module _ {Zone : Type 0} (utc : Zone) (load_location : Text → Option Zone)
    (clock : Zone → ℕ → Local) (times : (z : Zone) (now : ℕ) → IsLocal (clock z now)) where
  -- The location that the name of a zone stands for: an empty or an unknown one is UTC.
  pub data IsZone : Text → Zone → Type 0 where
    unnamed : IsZone [] utc
    unknown : (tz : Text) → load_location tz ≡ none → IsZone tz utc
    loaded : (tz : Text) (z : Zone) → tz ≢ [] → load_location tz ≡ some z → IsZone tz z

  zone_of-IsZone : (tz : Text) (z : Zone) → IsZone tz z → zone_of utc load_location clock tz ≡ z
  zone_of-IsZone [] z unnamed = refl
  zone_of-IsZone [] z (unknown tz h) = refl
  zone_of-IsZone [] z (loaded tz y apart h) = absurd (apart refl)
  zone_of-IsZone (c ∷ cs) z (unknown tz h) =
      ap (λ (o : Option Zone). elim o [ none ↦ utc | some y ↦ y ]) h
  zone_of-IsZone (c ∷ cs) z (loaded tz y apart h) =
      ap (λ (o : Option Zone). elim o [ none ↦ utc | some y ↦ y ]) h

  contains-covers :
      (w : Window) (z : Zone) (now start end : ℕ)
      → IsZone w.tz z
      → parse_hm w.start ≡ some start
      → parse_hm w.end ≡ some end
      → contains utc load_location clock w now ≡ covers w.days start end (clock z now)
  unfolding contains
  contains-covers w z now start end zone s e =
      rw (s, e)
        (ap (λ (y : Zone). covers w.days start end (clock y now)) (zone_of-IsZone w.tz z zone))

  -- A window whose two times parse is open, on the clock of its zone, exactly while its times differ,
  -- fewer minutes have passed since it last opened than lie between its start and the next end, past
  -- midnight or not, and the day on which it opened is one of its days, where a window without days
  -- has every day. An empty or unknown zone is UTC, and the clock shows hours below 24 and minutes
  -- below 60.
  pub contains-since_opening :
      (w : Window) (z : Zone) (now start end : ℕ)
      → IsZone w.tz z
      → parse_hm w.start ≡ some start
      → parse_hm w.end ≡ some end
      → (contains utc load_location clock w now ≡ true) ↔ (
          (start ≢ end)
          × (((w.days ≡ []) ⊎ In (pos (opened_on start (clock z now))) w.days)
              × (open_for start (clock z now) < span start end)))
  contains-since_opening w z now start end zone s e =
      let t = clock z now in
      let same =
        contains-covers w z now start end zone s e
        ∙ covers-span w.days start end t (times z now) (parse_hm-bound w.start s)
            (parse_hm-bound w.end e) in
      let open_iff = open_when w.days start end (opened_on start t) (open_for start t) in
      ((λ h. open_iff.0 (sym same ∙ h)), (λ h. same ∙ open_iff.1 h))
