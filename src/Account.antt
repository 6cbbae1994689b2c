-- ===== src/Account.antt =====
-- api/internal/store/users.go, api/internal/auth/totp.go, the login handlers of server/handler/auth.go and
-- totp.go and StepUp of stepup.go: the authentication columns of one row of users, and what reads and
-- writes them. Sessions are not of the model: what LookupPreAuth answers is an argument of the handler.
-- No statement fails, and a time is in seconds.
pub mod Totp
pub mod Login
pub mod Guesses
pub mod Lockout
pub mod Events
pub mod Replay
mod Tests
use vac.Prelude.{
  Text, ℕ, Bool, List, Option, ◌+◌, none, some, true, false, if◌then◌else◌, leb, ltb, keep, any,
  texts_eq, not, [],
}

pub record Account : Type 0 where
  pub password_hash : Text
  pub totp_secret : Option Text  -- sealed
  pub totp_enabled : Bool
  pub totp_recovery_codes : List Text
  pub last_totp_step : Option ℕ
  pub failed_auth_attempts : ℕ
  pub auth_locked_until : Option ℕ

-- bcrypt, the box of the master key, the TOTP generator and SHA-256 in hex. `open` answers `none` also
-- without a box, and `code_at` where the generator fails.
pub record Crypto : Type 0 where
  pub has_box : Bool
  pub verify_password : (hash password : Text) → Bool
  pub open_secret : Text → Option Text
  pub code_at : (secret : Text) → (step : ℕ) → Option Text
  pub digest : Text → Text

abbrev pub set_user_totp_secret : Text → Account → Account
set_user_totp_secret sealed a = record a {
  totp_secret = some sealed;
  totp_enabled = false;
  totp_recovery_codes = [];
}

abbrev pub enable_user_totp : List Text → Account → Account
enable_user_totp hashes a = record a { totp_enabled = true; totp_recovery_codes = hashes }

abbrev pub disable_user_totp : Account → Account
disable_user_totp a = record a {
  totp_secret = none;
  totp_enabled = false;
  totp_recovery_codes = [];
}

abbrev pub is_newer : Option ℕ → ℕ → Bool
is_newer none step = true
is_newer (some last_step) step = ltb last_step step

unfoldable pub consume_totp_step : ℕ → Account → Account × Bool
consume_totp_step step a =
    if is_newer a.last_totp_step step
    then (record a { last_totp_step = some step }, true)
    else (a, false)

unfoldable pub consume_recovery_code : Text → Account → Account × Bool
consume_recovery_code hash a =
    if any (texts_eq hash) a.totp_recovery_codes
    then (
      record a { totp_recovery_codes = keep (λ h. not (texts_eq hash h)) a.totp_recovery_codes },
      true,
    )
    else (a, false)

abbrev pub lock_end : Option ℕ → ℕ
lock_end none = 0
lock_end (some until) = until

-- until.After(now)
unfoldable pub is_locked : (now : ℕ) → Account → Bool
is_locked now a = ltb now (lock_end a.auth_locked_until)

abbrev pub max_auth_failures : ℕ
max_auth_failures = 10

abbrev pub auth_lockout_duration : ℕ
auth_lockout_duration = 900

unfoldable pub register_auth_failure : (threshold lock_for now : ℕ) → Account → Account
register_auth_failure threshold lock_for now a =
    if leb threshold (a.failed_auth_attempts + 1)
    then record a { failed_auth_attempts = 0; auth_locked_until = some (now + lock_for) }
    else record a { failed_auth_attempts = a.failed_auth_attempts + 1 }

abbrev pub clear_auth_failures : Account → Account
clear_auth_failures a = record a { failed_auth_attempts = 0; auth_locked_until = none }
