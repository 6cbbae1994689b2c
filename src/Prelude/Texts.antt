-- ===== src/Prelude/Texts.antt =====
-- Texts as lists of bytes, and what the program uses of Go's strconv and strings on them: Cut at a
-- one-byte separator, HasPrefix with TrimPrefix, and Atoi. Integers stand on the native numbers.
use vac.Prelude.Tests.{ltb, leb, ◌==◌, if◌then◌else◌}
use mathlib.Core.List.{List, [], ◌∷◌}
use mathlib.Core.Bool.{Bool, true, false, ◌&&◌}
use mathlib.Core.Option.{Option, none, some}
use mathlib.Core.Path.{◌≡◌, refl}
use native.Mathlib.Omega.{arith}
use Prim.Native.Char.{code}
use Prim.Native.String.{String}
use Prim.Native.Nat.{ℕ, zero, suc, ◌+◌, ◌-◌, ◌*◌}

pub data ℤ : Type 0 where
  pos : ℕ → ℤ
  negsuc : ℕ → ℤ

abbrev pub neg : ℕ → ℤ
neg zero = pos 0
neg (suc n) = negsuc n

abbrev pub is_nat : ℤ → ℕ → Bool
is_nat (pos n) m = n == m
is_nat (negsuc n) m = false

abbrev pub Text : Type 0
Text = List ℕ

-- A text that is written as a literal.
abbrev pub ascii : String → Text
ascii String.[] = []
ascii (String.◌∷◌ c s) = code c ∷ ascii s

abbrev pub texts_eq : Text → Text → Bool
texts_eq [] [] = true
texts_eq [] (d ∷ ds) = false
texts_eq (c ∷ cs) [] = false
texts_eq (c ∷ cs) (d ∷ ds) = c == d && texts_eq cs ds

pub texts_eq_refl : (s : Text) → texts_eq s s ≡ true
texts_eq_refl [] = refl
texts_eq_refl (c ∷ cs) = ground (arith, texts_eq_refl cs)

pub texts_eq_sound : (s t : Text) → texts_eq s t ≡ true → s ≡ t
texts_eq_sound [] [] h = refl
texts_eq_sound [] (d ∷ ds) h = absurd (ground arith)
texts_eq_sound (c ∷ cs) [] h = absurd (ground arith)
texts_eq_sound (c ∷ cs) (d ∷ ds) h = ground (arith, texts_eq_sound cs ds)

-- strings.Cut
unfoldable pub cut : ℕ → Text → Option (Text × Text)
cut separator [] = none
cut separator (c ∷ cs) =
    if c == separator
    then some ([], cs)
    else elim (cut separator cs) [ none ↦ none | some (before, after) ↦ some (c ∷ before, after) ]

-- strings.TrimPrefix, where strings.HasPrefix holds.
unfoldable pub strip_prefix : Text → Text → Option Text
strip_prefix [] s = some s
strip_prefix (p ∷ ps) [] = none
strip_prefix (p ∷ ps) (c ∷ cs) = if c == p then strip_prefix ps cs else none

digits : ℕ → Text → Option ℕ
digits n [] = some n
digits n (c ∷ cs) = if leb b'0' c && leb c b'9' then digits (n * 10 + (c - b'0')) cs else none

unsigned : Text → Option ℕ
unfolding digits
unsigned [] = none
unsigned (c ∷ cs) = digits 0 (c ∷ cs)

-- strconv.Atoi on a 64-bit machine: an optional sign, then decimal digits, in the range of int.
unfoldable pub atoi : Text → Option ℤ
unfolding unsigned
atoi [] = none
atoi (c ∷ cs) =
    if c == b'-'
    then elim (unsigned cs) [
      | none ↦ none
      | some n ↦ if leb n 9223372036854775808 then some (neg n) else none
    ]
    else elim (if c == b'+' then unsigned cs else unsigned (c ∷ cs)) [
      | none ↦ none
      | some n ↦ if ltb n 9223372036854775808 then some (pos n) else none
    ]
