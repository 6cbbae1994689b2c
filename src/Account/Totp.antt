-- ===== src/Account/Totp.antt =====
-- api/internal/auth/totp.go: the second factor. A code that Setup and Enable draw is an argument.
use vac.Prelude.{
  List, Option, Text, ℕ, ◌⊎◌, Bool, [], if◌then◌else◌, inl, map, some, ◌-◌, ◌/◌, ◌==◌, false, leb,
  none, ◌∷◌, inr, ◌&&◌, ◌+◌, texts_eq, ◌||◌,
}
use vac.Account.{
  Account, Crypto, consume_totp_step, consume_recovery_code, set_user_totp_secret, enable_user_totp,
}
use vac.Compose.Strings.{to_lower, trim_space}
use vac.Compose.Preflight.{is_empty}

pub data Refusal : Type 0 where
  no_box : Refusal
  totp_disabled : Refusal
  totp_invalid : Refusal
  sealed_shut : Refusal

abbrev pub same_code : Text → Option Text → Bool
same_code code none = false
same_code code (some expected) = texts_eq expected code

-- The three steps of the skew window, the oldest first. The clock is past the first step of 1970.
abbrev pub step_of : Crypto → (secret code : Text) → (current : ℕ) → Option ℕ
step_of c secret code current =
    if same_code code (c.code_at secret (current - 1))
    then some (current - 1)
    else if same_code code (c.code_at secret current)
    then some current
    else if same_code code (c.code_at secret (current + 1))
    then some (current + 1)
    else none

abbrev pub step_in : Crypto → (code : Text) → (current : ℕ) → (secret : Option Text) → Refusal ⊎ ℕ
step_in c code current none = inl sealed_shut
step_in c code current (some secret) = elim (step_of c secret code current) [
  | none ↦ inl totp_invalid
  | some step ↦ inr step
]

abbrev pub step_for : Crypto → (code : Text) → (current : ℕ) → (sealed : Option Text) → Refusal ⊎ ℕ
step_for c code current none = inl totp_disabled
step_for c code current (some sealed) =
    if is_empty sealed then inl totp_disabled else step_in c code current (c.open_secret sealed)

unfoldable pub match_step : Crypto → (now : ℕ) → (code : Text) → Account → Refusal ⊎ ℕ
match_step c now code a = if c.has_box then step_for c code (now / 30) a.totp_secret else inl no_box

abbrev pub verify_step : Refusal ⊎ ℕ → Account → Account × Option ℕ
verify_step (inl e) a = (a, none)
verify_step (inr step) a =
    let r = consume_totp_step step a in (r.0, if r.1 then some step else none)

-- Verify, with the step that it accepts.
unfoldable pub verify : Crypto → (now : ℕ) → (code : Text) → Account → Account × Option ℕ
unfolding match_step
verify c now code a = verify_step (match_step c now code a) a

abbrev pub is_kept : ℕ → Bool
is_kept b = (leb b'a' b && leb b b'z') || (leb b'0' b && leb b b'9') || b == b'-'

abbrev pub is_blank : ℕ → Bool
is_blank b = b == b' ' || b == 9

abbrev pub kept_or : ℕ → Option Text → Option Text
kept_or b none = none
kept_or b (some rest) =
    if is_kept b then some (b ∷ rest) else if is_blank b then some rest else none

abbrev pub recovery_bytes : Text → Option Text
recovery_bytes [] = some []
recovery_bytes (b ∷ bs) = kept_or b (recovery_bytes bs)

abbrev pub or_empty : Option Text → Text
or_empty none = []
or_empty (some s) = s

unfoldable pub normalize_recovery_code : Text → Text
normalize_recovery_code code = or_empty (recovery_bytes (to_lower (trim_space code)))

unfoldable pub spend_recovery_code : Crypto → (code : Text) → Account → Account × Bool
spend_recovery_code c code a =
    if is_empty (normalize_recovery_code code)
    then (a, false)
    else consume_recovery_code (c.digest (normalize_recovery_code code)) a

-- Setup behind the draw and the seal of the secret.
abbrev pub setup : Crypto → (sealed : Text) → Account → Account
setup c sealed a = if c.has_box then set_user_totp_secret sealed a else a

abbrev pub enabled_with : List Text → Refusal ⊎ ℕ → Account → Account
enabled_with hashes (inl e) a = a
enabled_with hashes (inr step) a = enable_user_totp hashes a

-- Enable, for these recovery codes: the step is not burnt.
unfoldable pub enable : Crypto → (now : ℕ) → (code : Text) → (codes : List Text) → Account → Account
unfolding match_step
enable c now code codes a = enabled_with (map c.digest codes) (match_step c now code a) a
