-- ===== src/Proxy/Gate.antt =====
-- The health gate while Caddy serves no route to one of the addresses that it asks for.
use vac.Proxy.Health.{
  all_healthy, poll, all_fine, unhealthy, ended, is_fine, answer_fine, gate_on, attempts_of,
}
use vac.Proxy.{Route, Caddy, IsCaddy, dials_of, Manager}
use vac.Prelude.{
  Text, List, ◌∷◌, [], none, ◌≡◌, ◌⊎◌, inl, inr, In, some, true, Bool, subst, ℕ, false, suc, zero,
  refl, ◌&&◌, Bool-cases, Option, any_found, ◌==◌, texts_eq, texts_eq_sound,
}
use vac.Prelude.{&&-eq-true}

true_and_false : {b : Bool} → b ≡ true → b ≡ false → ⊥
true_and_false p q = cc

-- A gate that asks for an address that no served route dials does not open.
module _ (c : Caddy) (laws : IsCaddy c) (want : List Text) (addr : Text)
    (asked : In addr want) where
  abbrev pub NoDial : c.State → Type 0
  NoDial s = (x : Route) → In x (c.served s) → ¬ In addr (dials_of x.handle)

  all_fine-In :
      (ups : List (Text × ℕ)) (addrs : List Text)
      → In addr addrs
      → all_fine ups addrs ≡ true
      → is_fine ups addr ≡ true
  all_fine-In ups [] i h = elim i [ ]
  all_fine-In ups (a ∷ addrs) (inl e) h = rw e (&&-eq-true (is_fine ups a) (all_fine ups addrs) h).0
  all_fine-In ups (a ∷ addrs) (inr i) h =
      all_fine-In ups addrs i (&&-eq-true (is_fine ups a) (all_fine ups addrs) h).1

  not_fine :
      (s : c.State) (ups : List (Text × ℕ))
      → NoDial s
      → c.upstreams s ≡ some ups
      → is_fine ups addr ≡ false
  not_fine s ups none_dials answer = elim (Bool-cases (is_fine ups addr)) [
    | inr n ↦ n
    | inl y ↦
        let found = any_found (λ (u : Text × ℕ). u.1 == 0 && texts_eq u.0 addr) ups y in
        let at =
          texts_eq_sound found.0.0 addr
            (&&-eq-true (found.0.1 == 0) (texts_eq found.0.0 addr) found.1.1).1 in
        let dialled = laws.upstreams_dialled s ups found.0.0 found.0.1 answer found.1.0 in
        absurd (
          none_dials dialled.0 dialled.1.0
            (subst (λ (a : Text). In a (dials_of dialled.0.handle)) at dialled.1.1))
  ]

  answer-NoDial :
      (s : c.State) (answer : Option (List (Text × ℕ)))
      → NoDial s
      → c.upstreams s ≡ answer
      → answer_fine c want answer ≡ false
  answer-NoDial s none none_dials e = refl
  answer-NoDial s (some ups) none_dials e = elim (Bool-cases (all_fine ups want)) [
    | inr n ↦ n
    | inl y ↦ absurd (true_and_false (all_fine-In ups want asked y) (not_fine s ups none_dials e))
  ]

  all_healthy-NoDial : (s : c.State) → NoDial s → all_healthy c want s ≡ false
  unfolding all_healthy
  all_healthy-NoDial s none_dials = answer-NoDial s (c.upstreams s) none_dials refl

  pub poll-NoDial :
      (ended_at late_at : ℕ → Bool) (server_at : ℕ → c.State)
      → ((n : ℕ) → NoDial (server_at n))
      → (attempt left : ℕ)
      → (poll c ended_at late_at server_at want attempt left ≡ unhealthy)
        ⊎ (poll c ended_at late_at server_at want attempt left ≡ ended)
  unfolding poll
  poll-NoDial ended_at late_at server_at shut attempt zero = inl refl
  poll-NoDial ended_at late_at server_at shut attempt (suc left) =
      elim (Bool-cases (ended_at attempt)) [
        | inl y ↦ rw y (inr refl)
        | inr n ↦
            rw (n, all_healthy-NoDial (server_at attempt) (shut attempt))
              (elim (Bool-cases (late_at attempt)) [
                | inl y ↦ rw y (inl refl)
                | inr k ↦ rw k (poll-NoDial ended_at late_at server_at shut (suc attempt) left)
              ])
      ]

pub gate-NoDial :
    (c : Caddy) (laws : IsCaddy c) (want : List Text) (addr : Text)
    → In addr want
    → (ended_at late_at : ℕ → Bool) (server_at : ℕ → c.State) (m : Manager)
    → ((n : ℕ) (x : Route) → In x (c.served (server_at n)) → ¬ In addr (dials_of x.handle))
    → (gate_on c ended_at late_at server_at m want ≡ unhealthy)
      ⊎ (gate_on c ended_at late_at server_at m want ≡ ended)
gate-NoDial c laws [] addr asked ended_at late_at server_at m shut = elim asked [ ]
gate-NoDial c laws (a ∷ want) addr asked ended_at late_at server_at m shut =
    poll-NoDial c laws (a ∷ want) addr asked ended_at late_at server_at shut 0
      (attempts_of m.cfg.health_retries)
