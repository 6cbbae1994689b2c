-- ===== src/Account/Login.antt =====
-- The login handlers and StepUp, on the row of the account they look up. `none` for a request is a body that
-- is no JSON. The audit, the cookies and the sessions that they create are left out.
use vac.Prelude.{Bool, Option, Text, if◌then◌else◌, ℕ, ◌&&◌, not, some, false, true, none}
use vac.Account.{
  Account, Crypto, is_locked, register_auth_failure, clear_auth_failures, max_auth_failures,
  auth_lockout_duration, lock_end,
}
use vac.Account.Totp.{verify, spend_recovery_code}
use vac.Compose.Preflight.{is_empty}

pub data Reply : Type 0 where
  bad_request : Reply
  no_session : Reply
  account_locked : (until : ℕ) → Reply
  refused : Reply
  totp_required : Reply
  granted : Reply

pub record Proof : Type 0 where
  pub code : Text
  pub recovery_code : Text
  pub password : Text

abbrev pub refuse : (now : ℕ) → Account → Account × Reply
refuse now a = (register_auth_failure max_auth_failures auth_lockout_duration now a, refused)

abbrev pub let_in : Account → Account × Reply
let_in a = (clear_auth_failures a, granted)

abbrev pub login_known : Crypto → (now : ℕ) → (password : Text) → Account → Account × Reply
login_known c now password a =
    if is_locked now a
    then (a, account_locked (lock_end a.auth_locked_until))
    else if not (c.verify_password a.password_hash password)
    then refuse now a
    else if a.totp_enabled
    then (a, totp_required)
    else let_in a

-- Login, with the username of this account.
unfoldable pub login : Crypto → (now : ℕ) → Option Text → Account → Account × Reply
unfolding is_locked register_auth_failure
login c now none a = (a, bad_request)
login c now (some password) a =
    if is_empty password then (a, bad_request) else login_known c now password a

-- Behind Verify and ConsumeRecoveryCode.
abbrev pub after_code : (now : ℕ) → Account × Option ℕ → Account × Reply
after_code now (a, none) = refuse now a
after_code now (a, some step) = let_in a

abbrev pub after_recovery : (now : ℕ) → Account × Bool → Account × Reply
after_recovery now (a, false) = refuse now a
after_recovery now (a, true) = let_in a

abbrev pub prove : Crypto → (now : ℕ) → Proof → Account → Account × Reply
prove c now p a =
    if is_locked now a
    then (a, account_locked (lock_end a.auth_locked_until))
    else if not (is_empty p.code)
    then after_code now (verify c now p.code a)
    else after_recovery now (spend_recovery_code c p.recovery_code a)

abbrev pub prove_with : Crypto → (now : ℕ) → Option Proof → Account → Account × Reply
prove_with c now none a = (a, bad_request)
prove_with c now (some p) a =
    if is_empty p.code && is_empty p.recovery_code then (a, bad_request) else prove c now p a

-- TOTPLogin; `pending` says that LookupPreAuth finds a session of this account.
unfoldable pub totp_login :
    Crypto → (now : ℕ) → (pending : Bool) → Option Proof → Account → Account × Reply
unfolding is_locked register_auth_failure verify spend_recovery_code
totp_login c now false p a = (a, no_session)
totp_login c now true p a = prove_with c now p a

abbrev pub stepped : Account × Option ℕ → Account × Reply
stepped (a, none) = (a, refused)
stepped (a, some step) = (a, granted)

abbrev pub stepped_recovery : Account × Bool → Account × Reply
stepped_recovery (a, false) = (a, refused)
stepped_recovery (a, true) = (a, granted)

abbrev pub step_up_totp : Crypto → (now : ℕ) → Proof → Account → Account × Reply
step_up_totp c now p a =
    if is_empty p.code && is_empty p.recovery_code
    then (a, bad_request)
    else if not (is_empty p.code)
    then stepped (verify c now p.code a)
    else stepped_recovery (spend_recovery_code c p.recovery_code a)

abbrev pub step_up_password : Crypto → Proof → Account → Account × Reply
step_up_password c p a =
    if is_empty p.password
    then (a, bad_request)
    else if not (c.verify_password a.password_hash p.password)
    then (a, refused)
    else (a, granted)

-- StepUp, on a full session of this account.
unfoldable pub step_up : Crypto → (now : ℕ) → Option Proof → Account → Account × Reply
unfolding verify spend_recovery_code
step_up c now none a = (a, bad_request)
step_up c now (some p) a =
    if not a.totp_enabled then step_up_password c p a else step_up_totp c now p a
