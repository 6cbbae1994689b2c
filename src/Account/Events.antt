-- ===== src/Account/Events.antt =====
-- What may happen to an account, and that none of it forgets a step of the authenticator.
use vac.Prelude.{
  Bool, List, ℕ, Option, Text, if◌then◌else◌, leb, map, not, ◌≡◌, ◌⊎◌, ◌∷◌, ◌+◌, any, some, true,
  inl, [], false, ◌&&◌, ◌<◌, arith, texts_eq, ◌≤◌, inr, none, refl,
}
use vac.Account.{
  Account, Crypto, is_locked, is_newer, register_auth_failure, consume_totp_step,
  consume_recovery_code, max_auth_failures, disable_user_totp,
}
use vac.Account.Totp.{
  Refusal, verify, verify_step, match_step, spend_recovery_code, normalize_recovery_code, setup,
  enable, enabled_with,
}
use vac.Account.Login.{
  Proof, login, totp_login, after_code, after_recovery, prove, refuse, step_up, stepped,
  stepped_recovery,
}
use vac.Compose.Preflight.{is_empty}

pub data Event : Type 0 where
  log_in : (now : ℕ) → (password : Option Text) → Event
  second_factor : (now : ℕ) → (pending : Bool) → Option Proof → Event
  step_up_again : (now : ℕ) → Option Proof → Event
  set_up : (sealed : Text) → Event
  confirm : (now : ℕ) → (code : Text) → (codes : List Text) → Event
  switch_off : Event

abbrev pub happens : Crypto → Event → Account → Account
happens c (log_in now request) a = (login c now request a).0
happens c (second_factor now pending request) a = (totp_login c now pending request a).0
happens c (step_up_again now request) a = (step_up c now request a).0
happens c (set_up sealed) a = setup c sealed a
happens c (confirm now code codes) a = enable c now code codes a
happens c switch_off a = disable_user_totp a

unfoldable pub happen : Crypto → List Event → Account → Account
happen c [] a = a
happen c (e ∷ es) a = happen c es (happens c e a)

abbrev pub IsPast : (step : ℕ) → Option ℕ → Type 0
IsPast step none = ⊥
IsPast step (some last_step) = step ≤ last_step

abbrev pub Kept : (step : ℕ) → Account → Type 0
Kept step a = IsPast step a.last_totp_step

either :
    (step : ℕ) (c : Bool) (x y : Account)
    → Kept step x
    → Kept step y
    → Kept step (if c then x else y)
either step true x y p q = p
either step false x y p q = q

both :
    {B : Type 0} (step : ℕ) (c : Bool) (x y : Account × B)
    → Kept step x.0
    → Kept step y.0
    → Kept step (if c then x else y).0
both step true x y p q = p
both step false x y p q = q

pub newer-past :
    (step next : ℕ) (o : Option ℕ) → IsPast step o → is_newer o next ≡ true → step < next
newer-past step next none p h = absurd p
newer-past step next (some last_step) p h = ground arith

consumed-Kept :
    (step next : ℕ) (a : Account) (fresh : Bool)
    → is_newer a.last_totp_step next ≡ fresh
    → Kept step a
    → Kept step
        (if◌then◌else◌ {A = Account × Bool} fresh
          (record a { last_totp_step = some next }, true)
          (a, false)).0
consumed-Kept step next a true h p =
    let later = newer-past step next a.last_totp_step p h in omega arith
consumed-Kept step next a false h p = p

verify_step-Kept :
    (step : ℕ) (m : Refusal ⊎ ℕ) (a : Account) → Kept step a → Kept step (verify_step m a).0
unfolding consume_totp_step
verify_step-Kept step (inl e) a p = p
verify_step-Kept step (inr next) a p =
    consumed-Kept step next a (is_newer a.last_totp_step next) refl p

verify-Kept :
    (step : ℕ) (c : Crypto) (now : ℕ) (code : Text) (a : Account)
    → Kept step a
    → Kept step (verify c now code a).0
unfolding verify
verify-Kept step c now code a p = verify_step-Kept step (match_step c now code a) a p

spend-Kept :
    (step : ℕ) (c : Crypto) (code : Text) (a : Account)
    → Kept step a
    → Kept step (spend_recovery_code c code a).0
unfolding spend_recovery_code consume_recovery_code
spend-Kept step c code a p = both step (is_empty (normalize_recovery_code code)) _ _ p (
    both step (any (texts_eq (c.digest (normalize_recovery_code code))) a.totp_recovery_codes) _ _ p
      p)

refuse-Kept : (step now : ℕ) (a : Account) → Kept step a → Kept step (refuse now a).0
unfolding register_auth_failure
refuse-Kept step now a p = either step (leb max_auth_failures (a.failed_auth_attempts + 1)) _ _ p p

after_code-Kept :
    (step now : ℕ) (v : Account × Option ℕ) → Kept step v.0 → Kept step (after_code now v).0
after_code-Kept step now (a, none) p = refuse-Kept step now a p
after_code-Kept step now (a, some next) p = p

after_recovery-Kept :
    (step now : ℕ) (v : Account × Bool) → Kept step v.0 → Kept step (after_recovery now v).0
after_recovery-Kept step now (a, false) p = refuse-Kept step now a p
after_recovery-Kept step now (a, true) p = p

prove-Kept :
    (step : ℕ) (c : Crypto) (now : ℕ) (s : Proof) (a : Account)
    → Kept step a
    → Kept step (prove c now s a).0
prove-Kept step c now s a p = both step (is_locked now a) _ _ p (
    both step (not (is_empty s.code)) _ _
      (after_code-Kept step now (verify c now s.code a) (verify-Kept step c now s.code a p))
      (after_recovery-Kept step now (spend_recovery_code c s.recovery_code a)
        (spend-Kept step c s.recovery_code a p)))

login-Kept :
    (step : ℕ) (c : Crypto) (now : ℕ) (request : Option Text) (a : Account)
    → Kept step a
    → Kept step (login c now request a).0
unfolding login
login-Kept step c now none a p = p
login-Kept step c now (some s) a p = both step (is_empty s) _ _ p (
    both step (is_locked now a) _ _ p (
      both step (not (c.verify_password a.password_hash s)) _ _ (refuse-Kept step now a p)
        (both step a.totp_enabled _ _ p p)))

totp_login-Kept :
    (step : ℕ) (c : Crypto) (now : ℕ) (pending : Bool) (request : Option Proof) (a : Account)
    → Kept step a
    → Kept step (totp_login c now pending request a).0
unfolding totp_login
totp_login-Kept step c now false request a p = p
totp_login-Kept step c now true none a p = p
totp_login-Kept step c now true (some s) a p =
    both step (is_empty s.code && is_empty s.recovery_code) _ _ p (prove-Kept step c now s a p)

stepped-Kept : (step : ℕ) (v : Account × Option ℕ) → Kept step v.0 → Kept step (stepped v).0
stepped-Kept step (a, none) p = p
stepped-Kept step (a, some next) p = p

stepped_recovery-Kept :
    (step : ℕ) (v : Account × Bool) → Kept step v.0 → Kept step (stepped_recovery v).0
stepped_recovery-Kept step (a, false) p = p
stepped_recovery-Kept step (a, true) p = p

step_up-Kept :
    (step : ℕ) (c : Crypto) (now : ℕ) (request : Option Proof) (a : Account)
    → Kept step a
    → Kept step (step_up c now request a).0
unfolding step_up
step_up-Kept step c now none a p = p
step_up-Kept step c now (some s) a p =
    both step (not a.totp_enabled) _ _
      (both step (is_empty s.password) _ _ p
        (both step (not (c.verify_password a.password_hash s.password)) _ _ p p))
      (both step (is_empty s.code && is_empty s.recovery_code) _ _ p (
        both step (not (is_empty s.code)) _ _
          (stepped-Kept step (verify c now s.code a) (verify-Kept step c now s.code a p))
          (stepped_recovery-Kept step (spend_recovery_code c s.recovery_code a)
            (spend-Kept step c s.recovery_code a p))))

enabled-Kept :
    (step : ℕ) (hashes : List Text) (m : Refusal ⊎ ℕ) (a : Account)
    → Kept step a
    → Kept step (enabled_with hashes m a)
enabled-Kept step hashes (inl e) a p = p
enabled-Kept step hashes (inr next) a p = p

happens-Kept :
    (step : ℕ) (c : Crypto) (e : Event) (a : Account) → Kept step a → Kept step (happens c e a)
unfolding enable
happens-Kept step c (log_in now request) a p = login-Kept step c now request a p
happens-Kept step c (second_factor now pending request) a p =
    totp_login-Kept step c now pending request a p
happens-Kept step c (step_up_again now request) a p = step_up-Kept step c now request a p
happens-Kept step c (set_up sealed) a p = either step c.has_box _ _ p p
happens-Kept step c (confirm now code codes) a p =
    enabled-Kept step (map c.digest codes) (match_step c now code a) a p
happens-Kept step c switch_off a p = p

pub happen-Kept :
    (step : ℕ) (c : Crypto) (es : List Event) (a : Account)
    → Kept step a
    → Kept step (happen c es a)
unfolding happen
happen-Kept step c [] a p = p
happen-Kept step c (e ∷ es) a p = happen-Kept step c es (happens c e a) (happens-Kept step c e a p)
