-- ===== src/Account/Tests.antt =====
-- An account whose codes are the steps in decimal.
use vac.Prelude.{
  List, [], ascii, some, true, ℕ, ◌≡◌, texts_eq, ◌∷◌, ◌≤◌, refl, ◌*◌, ◌++◌, ◌<◌, none, ◌⊎◌, ◌+◌,
}
use vac.Account.{
  Account, Crypto, is_locked, register_auth_failure, consume_totp_step, consume_recovery_code,
}
use vac.Account.Totp.{verify, match_step, normalize_recovery_code, spend_recovery_code}
use vac.Account.Login.{Proof, login, totp_login}
use vac.Account.Guesses.{Attempt, password, second, guesses, total}
use vac.Account.Lockout.{guesses-few}
use vac.Account.Events.{second_factor, happen}
use vac.Account.Replay.{verify-once}
use vac.Compose.Strings.{trim_right, trim_left}

abbrev plain : Crypto
plain = record {
  has_box = true;
  verify_password = texts_eq;
  open_secret = λ s. some s;
  code_at = λ secret step. some (secret ++ step ∷ []);
  digest = λ s. s;
}

abbrev admin : Account
admin = record {
  password_hash = ascii "open";
  totp_secret = some (ascii "k");
  totp_enabled = true;
  totp_recovery_codes = ascii "abc-1" ∷ [];
  last_totp_step = none;
  failed_auth_attempts = 0;
  auth_locked_until = none;
}

normalized : normalize_recovery_code (ascii "  AB c-1 ") ≡ ascii "abc-1"
unfolding normalize_recovery_code trim_right trim_left
normalized = refl

abbrev wrong : Attempt
wrong = password 1 (some (ascii "no"))

-- Eleven wrong passwords, of which the lock lets ten through, and one wrong code behind the lock.
abbrev attack : List Attempt
attack =
    wrong
    ∷ wrong
    ∷ wrong
    ∷ wrong
    ∷ wrong
    ∷ wrong
    ∷ wrong
    ∷ wrong
    ∷ wrong
    ∷ wrong
    ∷ wrong
    ∷ second 900 true (some (record { code = ascii "x"; recovery_code = []; password = [] }))
    ∷ []

eleven_tested : guesses plain 1000 attack admin ≡ 11
unfolding guesses login totp_login is_locked register_auth_failure verify match_step
    consume_totp_step
eleven_tested = refl

guesses-few_example :
    (k : ℕ) × ((guesses plain 1000 attack admin ≤ 10 * k)
      × ((k ≡ 0) ⊎ (900 * k ≤ total attack + 900)))
guesses-few_example = guesses-few plain 1000 attack admin refl

abbrev proof : Proof
proof = record { code = []; recovery_code = ascii "abc-1"; password = [] }

verify-once_example : 33 < 34
unfolding verify match_step consume_totp_step happen totp_login is_locked spend_recovery_code
    consume_recovery_code normalize_recovery_code trim_right trim_left
verify-once_example =
    verify-once plain 1000 (ascii "k" ++ 33 ∷ []) admin 33
      (second_factor 1001 true (some proof) ∷ []) 1010 (ascii "k" ++ 34 ∷ []) 34 refl refl
