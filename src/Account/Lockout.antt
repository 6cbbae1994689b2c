-- ===== src/Account/Lockout.antt =====
-- How many guesses the lockout of the account lets through.
use vac.Prelude.{
  Bool, ℕ, ◌+◌, List, if◌then◌else◌, leb, some, ◌≡◌, ◌≤◌, inl, ◌*◌, arith, false, subst, ◌⊎◌, inr,
  ◌∷◌, true, refl, sym, [], ap, ◌∙◌,
}
use vac.Account.{
  Account, Crypto, is_locked, lock_end, register_auth_failure, max_auth_failures,
  auth_lockout_duration,
}
use vac.Account.Login.{
  Reply, bad_request, no_session, account_locked, refused, totp_required, granted, refuse,
}
use vac.Account.Guesses.{
  Attempt, wait_of, answered, counted, guesses, total, IsIdle, Ends, answered-Ends,
}

-- Where the count stands: at most nine failures behind the last lock, and none while it lasts.
abbrev IsCounting : (now : ℕ) → Account → Type 0
IsCounting now a =
    (a.failed_auth_attempts ≤ 9)
    × ((a.failed_auth_attempts ≡ 0) ⊎ (lock_end a.auth_locked_until ≤ now))

abbrev Bound : (now : ℕ) → (failed until guessed spent : ℕ) → Type 0
Bound now failed until guessed spent =
    (k : ℕ) × ((guessed + failed ≤ 10 * k)
      × ((k ≡ 0) ⊎ ((now + 900 * k ≤ now + spent + 900) × (until + 900 * k ≤ now + spent + 900))))

none-Bound :
    (now spent : ℕ) (a : Account)
    → IsCounting now a
    → Bound now a.failed_auth_attempts (lock_end a.auth_locked_until) 0 spent
none-Bound now spent a (few, inl z) = (0, (ground arith, inl refl))
none-Bound now spent a (few, inr free) = (1, (ground arith, inr (ground arith, ground arith)))

later-Bound :
    (now wait failed until guessed spent : ℕ)
    → Bound (now + wait) failed until guessed spent
    → Bound now failed until guessed (wait + spent)
later-Bound now wait failed until guessed spent (k, (few, inl z)) = (k, (few, inl z))
later-Bound now wait failed until guessed spent (k, (few, inr (a, b))) =
    (k, (few, inr (ground arith, ground arith)))

-- A wrong guess at `now + wait`, first below the threshold, then at it.
missed-Bound :
    (now wait failed until guessed spent : ℕ)
    → until ≤ now + wait
    → Bound (now + wait) (failed + 1) until guessed spent
    → Bound now failed until (1 + guessed) (wait + spent)
missed-Bound now wait failed until guessed spent free (k, (few, inl z)) = absurd (ground arith)
missed-Bound now wait failed until guessed spent free (k, (few, inr (a, b))) =
    (k, (ground arith, inr (ground arith, ground arith)))

locked-Bound :
    (now wait failed until guessed spent : ℕ)
    → failed ≤ 9
    → until ≤ now + wait
    → Bound (now + wait) 0 (now + wait + 900) guessed spent
    → Bound now failed until (1 + guessed) (wait + spent)
locked-Bound now wait failed until guessed spent few free (k, (below, inl z)) =
    (1, (ground arith, inr (ground arith, ground arith)))
locked-Bound now wait failed until guessed spent few free (k, (below, inr (a, b))) =
    (k + 1, (ground arith, inr (ground arith, ground arith)))

abbrev Bounded : (now : ℕ) → Account → (guessed spent : ℕ) → Type 0
Bounded now a guessed spent =
    Bound now a.failed_auth_attempts (lock_end a.auth_locked_until) guessed spent

missed : (threshold : Bool) → (now : ℕ) → Account → Account
missed true now a = record a {
  failed_auth_attempts = 0;
  auth_locked_until = some (now + auth_lockout_duration);
}
missed false now a = record a { failed_auth_attempts = a.failed_auth_attempts + 1 }

missed-register :
    (t : Bool) (now : ℕ) (a : Account)
    → (if t
        then record a {
          failed_auth_attempts = 0;
          auth_locked_until = some (now + auth_lockout_duration);
        }
        else record a { failed_auth_attempts = a.failed_auth_attempts + 1 })
      ≡ missed t now a
unfolding missed
missed-register true now a = refl
missed-register false now a = refl

missed-Bounded :
    (now wait : ℕ) (a : Account) (guessed spent : ℕ) (t : Bool)
    → leb max_auth_failures (a.failed_auth_attempts + 1) ≡ t
    → IsCounting now a
    → lock_end a.auth_locked_until ≤ now + wait
    → (IsCounting (now + wait) (missed t (now + wait) a)
        → Bounded (now + wait) (missed t (now + wait) a) guessed spent)
    → Bounded now a (1 + guessed) (wait + spent)
unfolding missed
missed-Bounded now wait a guessed spent true at counting free rest =
    locked-Bound now wait a.failed_auth_attempts (lock_end a.auth_locked_until) guessed spent
      counting.0 free (rest (ground arith, inl refl))
missed-Bounded now wait a guessed spent false at counting free rest =
    missed-Bound now wait a.failed_auth_attempts (lock_end a.auth_locked_until) guessed spent free
      (rest (ground arith, inr free))

unlocked : (now : ℕ) (a : Account) → is_locked now a ≡ false → lock_end a.auth_locked_until ≤ now
unfolding is_locked
unlocked now a h = ground arith

refused-Bounded :
    (now wait : ℕ) (a : Account) (guessed spent : ℕ)
    → IsCounting now a
    → is_locked (now + wait) a ≡ false
    → (IsCounting (now + wait) (refuse (now + wait) a).0
        → Bounded (now + wait) (refuse (now + wait) a).0 guessed spent)
    → Bounded now a (1 + guessed) (wait + spent)
unfolding register_auth_failure
refused-Bounded now wait a guessed spent counting free rest =
    missed-Bounded now wait a guessed spent (leb max_auth_failures (a.failed_auth_attempts + 1))
      refl counting (unlocked (now + wait) a free)
      (subst (λ b. IsCounting (now + wait) b → Bounded (now + wait) b guessed spent)
        (missed-register (leb max_auth_failures (a.failed_auth_attempts + 1)) (now + wait) a) rest)

counted-idle : (r : Reply) (n : ℕ) → IsIdle r → counted r n ≡ n
counted-idle refused n h = absurd h
counted-idle granted n h = absurd h
counted-idle bad_request n h = refl
counted-idle no_session n h = refl
counted-idle (account_locked until) n h = refl
counted-idle totp_required n h = refl

later-IsCounting : (now wait : ℕ) (a : Account) → IsCounting now a → IsCounting (now + wait) a
later-IsCounting now wait a (few, inl z) = (few, inl z)
later-IsCounting now wait a (few, inr free) = (few, inr (ground arith))

step-Bounded :
    (now wait spent : ℕ) (a : Account) (r : Account × Reply) (n : Account → ℕ)
    → IsCounting now a
    → Ends (now + wait) a r
    → ((b : Account) → IsCounting (now + wait) b → Bounded (now + wait) b (n b) spent)
    → Bounded now a (counted r.1 (n r.0)) (wait + spent)
step-Bounded now wait spent a r n counting (inl e) rest =
    subst (λ x. Bounded now a (counted x (n r.0)) (wait + spent)) (sym e)
      (none-Bound now (wait + spent) a counting)
step-Bounded now wait spent a r n counting (inr (inl (same, idle))) rest =
    subst (λ x. Bounded now a x (wait + spent))
      (ap n (sym same) ∙ sym (counted-idle r.1 (n r.0) idle))
      (later-Bound now wait a.failed_auth_attempts (lock_end a.auth_locked_until) (n a) spent
        (rest a (later-IsCounting now wait a counting)))
step-Bounded now wait spent a r n counting (inr (inr (free, e))) rest =
    subst (λ x. Bounded now a (counted x.1 (n x.0)) (wait + spent)) (sym e)
      (refused-Bounded now wait a (n (refuse (now + wait) a).0) spent counting free
        (rest (refuse (now + wait) a).0))

guesses-Bounded :
    (c : Crypto) (now : ℕ) (xs : List Attempt) (a : Account)
    → IsCounting now a
    → Bounded now a (guesses c now xs a) (total xs)
unfolding guesses total
guesses-Bounded c now [] a counting = none-Bound now 0 a counting
guesses-Bounded c now (x ∷ xs) a counting =
    step-Bounded now (wait_of x) (total xs) a (answered c (now + wait_of x) x a)
      (guesses c (now + wait_of x) xs) counting (answered-Ends c (now + wait_of x) x a)
      (guesses-Bounded c (now + wait_of x) xs)

-- The lockout of an account whose counter stands at zero: of any requests to the two login handlers,
-- one after the other, up to the first that logs in fully, in whatever order passwords, codes and
-- recovery codes come and whatever the cryptography answers, at most ten wrong guesses are tested in
-- the first 15 minutes and ten more in every further 15.
pub guesses-few :
    (c : Crypto) (now : ℕ) (xs : List Attempt) (a : Account)
    → a.failed_auth_attempts ≡ 0
    → (k : ℕ) × ((guesses c now xs a ≤ 10 * k) × ((k ≡ 0) ⊎ (900 * k ≤ total xs + 900)))
guesses-few c now xs a zero =
    let b = guesses-Bounded c now xs a (ground arith, inl zero) in
    (b.0, (ground arith, elim b.1.1 [ inl z ↦ inl z | inr h ↦ inr (ground arith) ]))
