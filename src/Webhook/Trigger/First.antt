-- ===== src/Webhook/Trigger/First.antt =====
-- MatchTriggers and MatchingTrigger of api/internal/webhook/webhook.go.
use vac.Prelude.{
  List, Text, Option, texts_eq, ◌≡◌, All, [], false, is_some, true, ◌∷◌, Bool-cases, subst, sym,
  ◌||◌, ◌⊎◌, some, ◌++◌, ap, texts_eq_refl, ||-elim, ◌∙◌, inl, texts_eq_sound, ||-left, inr, none,
  arith, ||-second, refl,
}
use vac.Webhook.Trigger.{matching_trigger, DeployTrigger, match_triggers, fires, glob_match}
use vac.Webhook.Trigger.Glob.{Matches, glob_match-Matches}
use mathlib.Core.Bool.{false≢true}

-- A rule is for an event when it has the event's kind, and its filter is empty or matches the name.
abbrev pub Fires : (kind name : Text) → DeployTrigger → Type 0
Fires kind name t = (t.event ≡ kind) × ((t.filter ≡ []) ⊎ Matches t.filter name)

-- What MatchingTrigger returns, against the list.
abbrev pub IsFirst : List DeployTrigger → (kind name : Text) → Option DeployTrigger → Type 0
IsFirst ts kind name none = All (λ t. ¬ Fires kind name t) ts
IsFirst ts kind name (some t) =
    (before : List DeployTrigger) × (after : List DeployTrigger) × (ts ≡ before ++ t ∷ after)
    × All (λ u. ¬ Fires kind name u) before
    × Fires kind name t

filter_sound :
    (filter name : Text)
    → (texts_eq filter [] || glob_match filter name) ≡ true
    → (filter ≡ []) ⊎ Matches filter name
filter_sound filter name =
    ||-elim (texts_eq filter []) (glob_match filter name) (λ h. inl (texts_eq_sound filter [] h))
      (λ h. inr ((glob_match-Matches filter name).0 h))

filter_complete :
    (filter name : Text)
    → (filter ≡ []) ⊎ Matches filter name
    → (texts_eq filter [] || glob_match filter name) ≡ true
filter_complete filter name (inl e) =
    ||-left (texts_eq filter []) (glob_match filter name)
      (subst (λ t. texts_eq t [] ≡ true) (sym e) refl)
filter_complete filter name (inr m) =
    ||-second (texts_eq filter []) (glob_match filter name) ((glob_match-Matches filter name).1 m)

fires_sound : (kind name : Text) (t : DeployTrigger) → fires kind name t ≡ true → Fires kind name t
fires_sound kind name t h = elim (Bool-cases (texts_eq t.event kind)) [
  | inl y ↦ (texts_eq_sound t.event kind y, filter_sound t.filter name (rw y at h))
  | inr n ↦ absurd (ground (arith, n, h))
]

fires_complete :
    (kind name : Text) (t : DeployTrigger) → Fires kind name t → fires kind name t ≡ true
fires_complete kind name t (event, filter) =
    let y : texts_eq t.event kind ≡ true =
      subst (λ k. texts_eq t.event k ≡ true) event (texts_eq_refl t.event) in
    rw y (filter_complete t.filter name filter)

quiet : (kind name : Text) (t : DeployTrigger) → fires kind name t ≡ false → ¬ Fires kind name t
quiet kind name t n h = false≢true (sym n ∙ fires_complete kind name t h)

skip :
    (t : DeployTrigger) (ts : List DeployTrigger) (kind name : Text) (r : Option DeployTrigger)
    → ¬ Fires kind name t
    → IsFirst ts kind name r
    → IsFirst (t ∷ ts) kind name r
skip t ts kind name none n h = (n, h)
skip t ts kind name (some u) n (before, after, e, none_before, here) =
    (t ∷ before, after, ap (λ l. t ∷ l) e, (n, none_before), here)

-- MatchingTrigger returns the first rule of the list with the event's kind whose filter is empty or
-- matches the name, and nothing only if no rule does; MatchTriggers says whether it returns one.
pub matching_trigger-IsFirst :
    (ts : List DeployTrigger) (kind name : Text)
    → IsFirst ts kind name (matching_trigger ts kind name)
      × (match_triggers ts kind name ≡ is_some (matching_trigger ts kind name))
unfolding matching_trigger match_triggers
matching_trigger-IsFirst [] kind name = (tt, refl)
matching_trigger-IsFirst (t ∷ ts) kind name = elim (Bool-cases (fires kind name t)) [
  | inl y ↦ rw y (([], ts, refl, tt, fires_sound kind name t y), refl)
  | inr n ↦
      let (first_later, same) = matching_trigger-IsFirst ts kind name in
      rw n (
        skip t ts kind name (matching_trigger ts kind name) (quiet kind name t n) first_later,
        same,
      )
]
