-- ===== src/Account/Replay.antt =====
-- A step of the authenticator that was accepted is not accepted again.
use vac.Prelude.{
  none, ℕ, ◌⊎◌, Bool, Text, ◌≡◌, List, if◌then◌else◌, some, ◌<◌, true, false, inl, sym, inr, ap,
  subst, ◌∙◌, ◌≤◌, arith, refl,
}
use vac.Account.{Account, Crypto, is_newer, consume_totp_step}
use vac.Account.Totp.{Refusal, verify, verify_step, match_step}
use vac.Account.Events.{Event, happen, happen-Kept, Kept, IsPast, newer-past}
use mathlib.Core.Option.{some-injective}

none-some : {A : Type 0} (x : A) → none ≡ some x → ⊥
none-some x h = cc

accepted :
    (next step : ℕ) (a : Account) (fresh : Bool) (r : Account × Bool)
    → r ≡ (if fresh then (record a { last_totp_step = some next }, true) else (a, false))
    → (if r.1 then some next else none) ≡ some step
    → (fresh ≡ true) × ((next ≡ step) × Kept step r.0)
accepted next step a false r e h =
    absurd (none-some step (sym (ap (λ x. if x.1 then some next else none) e) ∙ h))
accepted next step a true r e h =
    let same = some-injective next step (ap (λ x. if x.1 then some next else none) (sym e) ∙ h) in
    (
      refl,
      (
        same,
        subst (λ b. IsPast step b.last_totp_step) (sym (ap (λ x. x.0) e))
            (subst (λ n. n ≤ next) same (ground arith)),
      ),
    )

verify_step-accepted :
    (m : Refusal ⊎ ℕ) (a : Account) (step : ℕ)
    → (verify_step m a).1 ≡ some step
    → (is_newer a.last_totp_step step ≡ true) × Kept step (verify_step m a).0
unfolding consume_totp_step
verify_step-accepted (inl e) a step h = absurd cc
verify_step-accepted (inr next) a step h =
    let r =
      accepted next step a (is_newer a.last_totp_step next) (consume_totp_step next a) refl h in
    (subst (λ n. is_newer a.last_totp_step n ≡ true) r.1.0 r.0, r.1.1)

verify-accepted :
    (c : Crypto) (now : ℕ) (code : Text) (a : Account) (step : ℕ)
    → (verify c now code a).1 ≡ some step
    → (is_newer a.last_totp_step step ≡ true) × Kept step (verify c now code a).0
unfolding verify
verify-accepted c now code a step h = verify_step-accepted (match_step c now code a) a step h

-- A code is accepted for one time-step. Whatever happens to the account afterwards, logins, second
-- factors and step-ups, also a new set-up or a switch-off of the second factor, a code that
-- is accepted later is one for a later step: none is accepted twice for the same step.
pub verify-once :
    (c : Crypto) (now : ℕ) (code : Text) (a : Account) (step : ℕ) (es : List Event) (now' : ℕ)
    (code' : Text) (step' : ℕ)
    → (verify c now code a).1 ≡ some step
    → (verify c now' code' (happen c es (verify c now code a).0)).1 ≡ some step'
    → step < step'
verify-once c now code a step es now' code' step' first again =
    newer-past step step' (happen c es (verify c now code a).0).last_totp_step
      (happen-Kept step c es (verify c now code a).0 (verify-accepted c now code a step first).1)
      (verify-accepted c now' code' (happen c es (verify c now code a).0) step' again).0
