-- ===== src/Compose/Strings.antt =====
-- What api/internal/compose/preflight.go uses of Go's strings and strconv, on texts of ASCII bytes.
use vac.Prelude.{
  List, Text, ℕ, Bool, Option, if◌then◌else◌, map, ℤ, ◌∷◌, suc, ◌+◌, ◌++◌, ◌==◌, false, is_some,
  leb, none, pos, some, texts_eq, ◌||◌, [], ◌%◌, ◌&&◌, ◌*◌, neg, strip_prefix, true, negsuc, ◌-◌,
  ◌/◌, ltb, not, zero, ◌^◌,
}

-- The text before the first such byte, or all of it: IndexByte and a slice.
unfoldable pub before : ℕ → Text → Text
before b [] = []
before b (c ∷ cs) = if c == b then [] else c ∷ before b cs

-- The texts on both sides of the last such byte: LastIndexByte and two slices.
unfoldable pub cut_last : ℕ → Text → Option (Text × Text)
cut_last b [] = none
cut_last b (c ∷ cs) = elim (cut_last b cs) [
  | some (left, right) ↦ some (c ∷ left, right)
  | none ↦ if c == b then some ([], cs) else none
]

abbrev pub has_prefix : (s start : Text) → Bool
has_prefix s start = is_some (strip_prefix start s)

unfoldable pub contains_text : (s needle : Text) → Bool
contains_text [] needle = has_prefix [] needle
contains_text (c ∷ cs) needle = has_prefix (c ∷ cs) needle || contains_text cs needle

unfoldable pub has_suffix : (s end : Text) → Bool
has_suffix [] end = texts_eq [] end
has_suffix (c ∷ cs) end = texts_eq (c ∷ cs) end || has_suffix cs end

abbrev pub is_space : ℕ → Bool
is_space c = (leb 9 c && leb c 13) || c == 32

unfoldable pub trim_left : (ℕ → Bool) → Text → Text
trim_left p [] = []
trim_left p (c ∷ cs) = if p c then trim_left p cs else c ∷ cs

abbrev pub unless_blank : (ℕ → Bool) → ℕ → Text → Text
unless_blank p c [] = if p c then [] else c ∷ []
unless_blank p c (d ∷ ds) = c ∷ d ∷ ds

unfoldable pub trim_right : (ℕ → Bool) → Text → Text
trim_right p [] = []
trim_right p (c ∷ cs) = unless_blank p c (trim_right p cs)

abbrev pub trim_space : Text → Text
trim_space s = trim_right is_space (trim_left is_space s)

abbrev pub to_upper : Text → Text
to_upper s = map (λ c. if leb b'a' c && leb c b'z' then c - 32 else c) s

abbrev pub to_lower : Text → Text
to_lower s = map (λ c. if leb b'A' c && leb c b'Z' then c + 32 else c) s

abbrev pub onto_first : ℕ → List Text → List Text
onto_first c [] = (c ∷ []) ∷ []
onto_first c (t ∷ ts) = (c ∷ t) ∷ ts

unfoldable pub split : ℕ → Text → List Text
split b [] = [] ∷ []
split b (c ∷ cs) = let rest = split b cs in if c == b then [] ∷ rest else onto_first c rest

unfoldable pub join : (separator : Text) → List Text → Text
join separator [] = []
join separator (t ∷ []) = t
join separator (t ∷ u ∷ ts) = t ++ (separator ++ join separator (u ∷ ts))

-- Go's order of strings.
unfoldable pub text_less : Text → Text → Bool
text_less s [] = false
text_less [] (d ∷ ds) = true
text_less (c ∷ cs) (d ∷ ds) = ltb c d || (c == d && text_less cs ds)

-- ParseUint's loop: the maximum at the first digit that overflows, whatever stands after it.
unfoldable pub uint_of : ℕ → Text → Option ℕ
uint_of n [] = some n
uint_of n (c ∷ cs) =
    let m = n * 10 + (c - b'0') in
    let rest = uint_of m cs in
    if not (leb b'0' c && leb c b'9')
    then none
    else if leb (2 ^ 64) m
    then some 18446744073709551615
    else rest

abbrev pub uint_value : Text → ℕ
uint_value [] = 0
uint_value (c ∷ cs) = elim (uint_of 0 (c ∷ cs)) [ none ↦ 0 | some n ↦ n ]

abbrev at_most : (bound n : ℕ) → ℕ
at_most bound n = if leb n bound then n else bound

-- The number that strconv.Atoi returns beside its error: 0 where the text is no number, and the
-- nearest int where it is out of range.
unfoldable pub atoi_value : Text → ℤ
unfolding uint_of
atoi_value [] = pos 0
atoi_value (c ∷ cs) =
    if c == b'-'
    then neg (at_most 9223372036854775808 (uint_value cs))
    else if c == b'+'
    then pos (at_most 9223372036854775807 (uint_value cs))
    else pos (at_most 9223372036854775807 (uint_value (c ∷ cs)))

-- fmt's %d: the fuel is a digit's, and 20 digits hold a number of 64 bits.
decimal_on : (fuel : ℕ) → ℕ → Text → Text
decimal_on zero n digits = digits
decimal_on (suc fuel) n digits =
    let shown = (b'0' + n % 10) ∷ digits in
    let rest = decimal_on fuel (n / 10) shown in if ltb n 10 then shown else rest

unfoldable pub decimal : ℤ → Text
unfolding decimal_on
decimal (pos n) = decimal_on 20 n []
decimal (negsuc n) = b'-' ∷ decimal_on 20 (suc n) []
