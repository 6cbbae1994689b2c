-- ===== src/DomainStatus/Apex.antt =====
-- When a host is an apex with a CNAME to another name, for api/internal/domainstatus/engine.go.
use vac.Compose.Strings.{to_lower}
use vac.DomainStatus.{Net, strays, is_apex, strays_to, trim_dot, equal_fold}
use vac.Compose.Preflight.{is_empty}
use mathlib.Core.Option.{some-injective}
use vac.Prelude.{
  Text, Option, ◌≡◌, [], false, some, true, ◌⊎◌, none, Bool-cases, refl, inl, ◌∷◌, inr, arith,
  subst, texts_eq, texts_eq_sound, texts_eq_refl, ◌∙◌, Bool, sym, ap, count, ◌&&◌, ◌==◌, ◌≤◌, leb,
  not, ◌++◌, ℕ, ◌≢◌,
}

-- A registrable domain of its own: the public suffix list says so or, where it knows no such domain, the
-- host has at most one dot.
abbrev pub IsApex : Net → Text → Type 0
IsApex net host =
    ((e : Text) × ((net.etld1 host ≡ some e) × (to_lower e ≡ to_lower host)))
    ⊎ ((net.etld1 host ≡ none) × (count (λ c. c == b'.') host ≤ 1))

-- The name without the dot at its end, if it has one.
abbrev pub Undotted : Text → Text → Type 0
Undotted dotted name =
    (dotted ≡ name ++ b'.' ∷ [])
    ⊎ ((dotted ≡ name) × ((front : Text) → dotted ≢ front ++ b'.' ∷ []))

-- A CNAME that names no other host: none, an empty one, or the host, in any case and but for a dot at its end.
abbrev pub OwnName : Text → Option Text → Type 0
OwnName host none = Unit {0}
OwnName host (some cname) =
    (cname ≡ []) ⊎ ((name : Text) × (Undotted cname name × (to_lower name ≡ to_lower host)))

empty_dotted : (front : Text) → ◌≡◌ {A = Text} [] (front ++ b'.' ∷ []) → ⊥
empty_dotted [] e = cc
empty_dotted (f ∷ front) e = cc

single_dot : (c : ℕ) (front : Text) → (c == b'.') ≡ false → c ∷ [] ≡ front ++ b'.' ∷ [] → ⊥
single_dot c [] n e = let dot : c ≡ b'.' = cc in absurd (ground (arith, n, dot))
single_dot c (f ∷ front) n e = empty_dotted front cc

last_byte :
    (c d : ℕ) (ds front : Text)
    → ((rest : Text) → d ∷ ds ≢ rest ++ b'.' ∷ [])
    → c ∷ d ∷ ds ≢ front ++ b'.' ∷ []
last_byte c d ds [] h e = absurd cc
last_byte c d ds (f ∷ front) h e = h front cc

trim_dot-Undotted : (t : Text) → Undotted t (trim_dot t)
unfolding trim_dot
trim_dot-Undotted [] = inr (refl, λ front e. empty_dotted front e)
trim_dot-Undotted (c ∷ []) = elim (Bool-cases (c == b'.')) [
  | inl y ↦ let dot : c ≡ b'.' = ground arith in rw (y, dot) (inl refl)
  | inr n ↦ rw n (inr (refl, λ front e. single_dot c front n e))
]
trim_dot-Undotted (c ∷ d ∷ ds) = elim (trim_dot-Undotted (d ∷ ds)) [
  | inl dotted ↦ inl (ap (λ (t : Text). c ∷ t) dotted)
  | inr (same, k) ↦ inr (ap (λ (t : Text). c ∷ t) same, λ front. last_byte c d ds front k)
]

dot-injective : (s t : Text) → s ++ b'.' ∷ [] ≡ t ++ b'.' ∷ [] → s ≡ t
dot-injective [] [] e = refl
dot-injective [] (b ∷ t) e = absurd (empty_dotted t cc)
dot-injective (a ∷ s) [] e =
    let rest : s ++ b'.' ∷ [] ≡ [] = cc in absurd (empty_dotted s (sym rest))
dot-injective (a ∷ s) (b ∷ t) e =
    let here : a ≡ b = cc in let rest : s ≡ t = dot-injective s t cc in rw (here, rest) refl

Undotted-unique : (t s r : Text) → Undotted t s → Undotted t r → s ≡ r
Undotted-unique t s r (inl a) (inl b) = dot-injective s r (sym a ∙ b)
Undotted-unique t s r (inl a) (inr (b, k)) = absurd (k s a)
Undotted-unique t s r (inr (a, k)) (inl b) = absurd (k r b)
Undotted-unique t s r (inr (a, k)) (inr (b, l)) = sym a ∙ b

same_fold : (s t : Text) → to_lower s ≡ to_lower t → equal_fold s t ≡ true
same_fold s t e =
    subst (λ (u : Text). texts_eq (to_lower s) u ≡ true) e (texts_eq_refl (to_lower s))

-- What the public suffix list answers, and the test of it.
abbrev Answers : (host : Text) → Option Text → Type 0
Answers host o =
    ((e : Text) × ((o ≡ some e) × (to_lower e ≡ to_lower host)))
    ⊎ ((o ≡ none) × (count (λ c. c == b'.') host ≤ 1))

abbrev apex_by : (host : Text) → Option Text → Bool
apex_by host o = elim o [ none ↦ leb (count (λ c. c == b'.') host) 1 | some e ↦ equal_fold e host ]

answer_sound : (host : Text) (o : Option Text) → apex_by host o ≡ true → Answers host o
answer_sound host none h = inr (refl, ground arith)
answer_sound host (some e) h = inl (e, (refl, texts_eq_sound (to_lower e) (to_lower host) h))

answer_complete : (host : Text) (o : Option Text) → Answers host o → apex_by host o ≡ true
answer_complete host none (inl (e, (nothing, same))) = absurd cc
answer_complete host none (inr (unknown, few)) = ground arith
answer_complete host (some x) (inl (e, (is, same))) =
    same_fold x host (ap to_lower (some-injective x e is) ∙ same)
answer_complete host (some x) (inr (unknown, few)) = absurd cc

is_apex_sound : (net : Net) (host : Text) → is_apex net host ≡ true → IsApex net host
unfolding is_apex
is_apex_sound net host h = answer_sound host (net.etld1 host) h

is_apex_complete : (net : Net) (host : Text) → IsApex net host → is_apex net host ≡ true
unfolding is_apex
is_apex_complete net host a = answer_complete host (net.etld1 host) a

empty_text : (t : Text) → is_empty t ≡ true → t ≡ []
empty_text [] h = refl
empty_text (c ∷ cs) h = absurd cc

and_not : (b : Bool) → (b && false) ≡ false
and_not true = refl
and_not false = refl

own_sound : (host : Text) (o : Option Text) → strays_to host o ≡ false → OwnName host o
own_sound host none h = tt
own_sound host (some cname) h = elim (Bool-cases (is_empty cname)) [
  | inl y ↦ inl (empty_text cname y)
  | inr n ↦ elim (Bool-cases (equal_fold (trim_dot cname) host)) [
    | inl y ↦ inr (
      trim_dot cname,
      (trim_dot-Undotted cname, texts_eq_sound (to_lower (trim_dot cname)) (to_lower host) y),
    )
    | inr k ↦ absurd (ground (arith, n, k, h))
  ]
]

own_complete : (host : Text) (o : Option Text) → OwnName host o → strays_to host o ≡ false
own_complete host none h = refl
own_complete host (some cname) (inl e) = rw e refl
own_complete host (some cname) (inr (name, (bare, same))) =
    let here = Undotted-unique cname (trim_dot cname) name (trim_dot-Undotted cname) bare in
    rw (same_fold (trim_dot cname) host (ap to_lower here ∙ same)) (and_not (not (is_empty cname)))

pub no_stray_sound :
    (net : Net) (host : Text)
    → strays net host ≡ false
    → IsApex net host
    → OwnName host (net.lookup_cname host)
no_stray_sound net host h a = own_sound host (net.lookup_cname host) (
    ap (λ (b : Bool). b && strays_to host (net.lookup_cname host))
      (sym (is_apex_complete net host a))
    ∙ h)

pub no_stray_complete :
    (net : Net) (host : Text)
    → (IsApex net host → OwnName host (net.lookup_cname host))
    → strays net host ≡ false
no_stray_complete net host k = elim (Bool-cases (is_apex net host)) [
  | inr n ↦ rw n refl
  | inl y ↦ rw y (own_complete host (net.lookup_cname host) (k (is_apex_sound net host y)))
]
