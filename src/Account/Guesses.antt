-- ===== src/Account/Guesses.antt =====
-- Requests to the login handlers, the wrong guesses among them, and how a request ends.
use vac.Prelude.{
  List, Text, ℕ, ◌+◌, Bool, Option, inr, ◌≡◌, ◌∷◌, false, inl, none, ◌⊎◌, [], any, ap, some, ◌&&◌,
  texts_eq, refl, true, if◌then◌else◌, not,
}
use vac.Account.{Account, Crypto, is_locked, is_newer, consume_totp_step, consume_recovery_code}
use vac.Account.Totp.{
  Refusal, verify, verify_step, match_step, spend_recovery_code, normalize_recovery_code,
}
use vac.Account.Login.{
  Reply, Proof, refused, granted, login, login_known, totp_login, after_code, after_recovery, prove,
  refuse,
}
use vac.Compose.Preflight.{is_empty}

-- A request to one of the two login handlers, some seconds behind the one before it.
pub data Attempt : Type 0 where
  password : (wait : ℕ) → Option Text → Attempt
  second : (wait : ℕ) → (pending : Bool) → Option Proof → Attempt

abbrev pub wait_of : Attempt → ℕ
wait_of (password wait request) = wait
wait_of (second wait pending request) = wait

abbrev pub answered : Crypto → (now : ℕ) → Attempt → Account → Account × Reply
answered c now (password wait request) a = login c now request a
answered c now (second wait pending request) a = totp_login c now pending request a

-- One more for a guess that was tested and is wrong; a full login ends the count.
abbrev pub counted : Reply → ℕ → ℕ
counted refused n = 1 + n
counted granted n = 0
counted _ n = n

unfoldable pub guesses : Crypto → (now : ℕ) → List Attempt → Account → ℕ
guesses c now [] a = 0
guesses c now (x ∷ xs) a =
    counted (answered c (now + wait_of x) x a).1
      (guesses c (now + wait_of x) xs (answered c (now + wait_of x) x a).0)

unfoldable pub total : List Attempt → ℕ
total [] = 0
total (x ∷ xs) = wait_of x + total xs

abbrev pub IsIdle : Reply → Type 0
IsIdle refused = ⊥
IsIdle granted = ⊥
IsIdle _ = Unit {0}

abbrev pub Ends : (now : ℕ) → Account → Account × Reply → Type 0
Ends now a r =
    (r.1 ≡ granted) ⊎ (((r.0 ≡ a) × IsIdle r.1) ⊎ ((is_locked now a ≡ false) × (r ≡ refuse now a)))

-- Both tests of a factor leave the account as it is where they fail.
tested-kept :
    (c : Bool) (b a : Account)
    → (if◌then◌else◌ {A = Account × Bool} c (b, true) (a, false)).1 ≡ false
    → (if◌then◌else◌ {A = Account × Bool} c (b, true) (a, false)).0 ≡ a
tested-kept true b a h = absurd cc
tested-kept false b a h = refl

burnt-kept :
    (step : ℕ) (a b : Account) (fresh : Bool)
    → (fresh ≡ false → b ≡ a)
    → (if fresh then some step else none) ≡ none
    → b ≡ a
burnt-kept step a b true k h = absurd cc
burnt-kept step a b false k h = k refl

skipped-kept :
    (c : Bool) (a : Account) (r : Account × Bool)
    → (r.1 ≡ false → r.0 ≡ a)
    → (if◌then◌else◌ {A = Account × Bool} c (a, false) r).1 ≡ false
    → (if◌then◌else◌ {A = Account × Bool} c (a, false) r).0 ≡ a
skipped-kept true a r k h = refl
skipped-kept false a r k h = k h

verify_step-kept :
    (m : Refusal ⊎ ℕ) (a : Account) → (verify_step m a).1 ≡ none → (verify_step m a).0 ≡ a
unfolding consume_totp_step
verify_step-kept (inl e) a h = refl
verify_step-kept (inr step) a h =
    burnt-kept step a (consume_totp_step step a).0 (consume_totp_step step a).1
      (tested-kept (is_newer a.last_totp_step step) _ a) h

verify-kept :
    (c : Crypto) (now : ℕ) (code : Text) (a : Account)
    → (verify c now code a).1 ≡ none
    → (verify c now code a).0 ≡ a
unfolding verify
verify-kept c now code a h = verify_step-kept (match_step c now code a) a h

spend-kept :
    (c : Crypto) (code : Text) (a : Account)
    → (spend_recovery_code c code a).1 ≡ false
    → (spend_recovery_code c code a).0 ≡ a
unfolding spend_recovery_code consume_recovery_code
spend-kept c code a h =
    skipped-kept (is_empty (normalize_recovery_code code)) a
      (consume_recovery_code (c.digest (normalize_recovery_code code)) a)
      (tested-kept (any (texts_eq (c.digest (normalize_recovery_code code))) a.totp_recovery_codes)
        _ a)
      h

after_code-Ends :
    (now : ℕ) (a : Account) (v : Account × Option ℕ)
    → is_locked now a ≡ false
    → (v.1 ≡ none → v.0 ≡ a)
    → Ends now a (after_code now v)
after_code-Ends now a (b, none) free k = inr (inr (free, ap (refuse now) (k refl)))
after_code-Ends now a (b, some step) free k = inl refl

after_recovery-Ends :
    (now : ℕ) (a : Account) (v : Account × Bool)
    → is_locked now a ≡ false
    → (v.1 ≡ false → v.0 ≡ a)
    → Ends now a (after_recovery now v)
after_recovery-Ends now a (b, false) free k = inr (inr (free, ap (refuse now) (k refl)))
after_recovery-Ends now a (b, true) free k = inl refl

branched :
    (now : ℕ) (a : Account) (c : Bool) (x y : Account × Reply)
    → (c ≡ true → Ends now a x)
    → (c ≡ false → Ends now a y)
    → Ends now a (if c then x else y)
branched now a true x y f g = f refl
branched now a false x y f g = g refl

prove-Ends : (c : Crypto) (now : ℕ) (p : Proof) (a : Account) → Ends now a (prove c now p a)
prove-Ends c now p a =
    branched now a (is_locked now a) _ _ (λ y. inr (inl (refl, tt)))
      (λ n.
        branched now a (not (is_empty p.code)) _ _
          (λ y. after_code-Ends now a (verify c now p.code a) n (verify-kept c now p.code a))
          (λ k.
            after_recovery-Ends now a (spend_recovery_code c p.recovery_code a) n
              (spend-kept c p.recovery_code a)))

login_known-Ends :
    (c : Crypto) (now : ℕ) (s : Text) (a : Account) → Ends now a (login_known c now s a)
login_known-Ends c now s a =
    branched now a (is_locked now a) _ _ (λ y. inr (inl (refl, tt)))
      (λ n.
        branched now a (not (c.verify_password a.password_hash s)) _ _ (λ y. inr (inr (n, refl)))
          (λ k. branched now a a.totp_enabled _ _ (λ y. inr (inl (refl, tt))) (λ e. inl refl)))

pub answered-Ends :
    (c : Crypto) (now : ℕ) (x : Attempt) (a : Account) → Ends now a (answered c now x a)
unfolding login totp_login
answered-Ends c now (password wait none) a = inr (inl (refl, tt))
answered-Ends c now (password wait (some s)) a =
    branched now a (is_empty s) _ _ (λ y. inr (inl (refl, tt))) (λ n. login_known-Ends c now s a)
answered-Ends c now (second wait false request) a = inr (inl (refl, tt))
answered-Ends c now (second wait true none) a = inr (inl (refl, tt))
answered-Ends c now (second wait true (some p)) a =
    branched now a (is_empty p.code && is_empty p.recovery_code) _ _ (λ y. inr (inl (refl, tt)))
      (λ n. prove-Ends c now p a)
