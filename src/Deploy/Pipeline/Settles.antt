-- ===== src/Deploy/Pipeline/Settles.antt =====
-- What a run of api/internal/deploy/pipeline.go leaves in the deployment's row.
use vac.Prelude.{
  ℕ, Bool, Option, String, if◌then◌else◌, subst, ◌≡◌, false, some, sym, true, refl, ap, zero,
  is_some, Text,
}
use vac.Deploy.Pipeline.{Run, World, PipelineApp, context_ended, message, notified_failure}
use vac.Deploy.Pipeline.Steps.{
  Exec, Outcome, returns, raised, attempt, try, give, pure, ◌>>=◌, ◌>>◌, set_app_status,
  write_status, note_call,
}
use vac.Deploy.Pipeline.Lifecycle.{On, to_error}
use vac.Deploy.Pipeline.Stays.{
  Stays-set_app_status, Stays-set_suspended, Stays-bounded, Stays-note_call,
}
use vac.Deploy.Pipeline.Ends.{
  Closed, Calm, Calm-attempt, Calm-then, Calm-note_call, finish-settles, same-then,
}
use vac.Deploy.Pipeline.Closes.{Closes-body}
use vac.Deploy.Pipeline.Deploy.{
  finish, settle_failure, maintain_on, maintain_off, body, started, maintains,
}
use vac.Deploy.Schema.{Deployment, in_flight}
use vac.Deploy.Status.{DeploymentStatus, is_terminal, queued, ServiceStatus}
use vac.Compose.{Fields}

module _ (id : ℕ) (may_end : Bool) where
  -- Behind a run that started: settled unless the context may end, and in flight where its end is the error.
  abbrev pub Settled : Outcome Unit → Run → Type 0
  Settled r s =
      (t : DeploymentStatus) × (On id may_end t s
        × ((may_end ≡ false → is_terminal t ≡ true)
            × (r ≡ raised context_ended → in_flight t ≡ true)))

  pub record Settles (m : Exec Unit) : Type 0 where
    pub at : (s : Run) → On id may_end queued s → Settled (m s).0 (m s).1

module _ {id : ℕ} {may_end : Bool} where
  Settles-Calm :
      (m n : Exec Unit) → Calm id may_end m → Settles id may_end n → Settles id may_end (m >> n)
  unfolding ◌>>=◌
  Settles-Calm m n km kn = record {
    at = λ s h.
        rw (same-then n (m s).0 (m s).1 (km.returned s)) (kn.at (m s).1 (km.same queued s h));
  }

  Calm-if :
      (b : Bool) (m : Exec Unit) → Calm id may_end m → Calm id may_end (if b then m else pure tt)
  unfolding pure
  Calm-if true m k = k
  Calm-if false m k = record { returned = λ s. refl; same = λ st s h. h }

ended-finish :
    (w : World) (id : ℕ) (app : PipelineApp) (st : DeploymentStatus) (text : Option String)
    (s : Run)
    → s.left ≡ some zero
    → (finish w id app st text s).1 ≡ s
unfolding finish write_status
ended-finish w id app st text s e = rw e refl

module _ (id : ℕ) (may_end : Bool) (w : World) (app : PipelineApp) where
  Calm-maintain_on : Calm id may_end (maintain_on w id app)
  unfolding maintain_on
  Calm-maintain_on =
      Calm-if (maintains w id app) _ (Calm-attempt _ (Stays-bounded _ (Stays-note_call _)))

  Calm-maintain_off : Calm id may_end (maintain_off w id app)
  unfolding maintain_off
  Calm-maintain_off = Calm-if (maintains w id app) _ (Calm-note_call _)

  Calm-notify :
      Calm id may_end (attempt (set_app_status ServiceStatus.error) >> note_call notified_failure)
  Calm-notify = Calm-then _ _ (Calm-attempt _ (Stays-set_app_status _)) (Calm-note_call _)

  returned-settle_failure :
      (r : Outcome Unit) (s : Run) → (settle_failure w id app r s).0 ≡ returns tt
  unfolding settle_failure attempt ◌>>=◌
  returned-settle_failure (returns a) s = refl
  returned-settle_failure (raised e) s = Calm-notify.returned _

  Settled-failure :
      (r : Outcome Unit) (s : Run)
      → Closed id may_end r s
      → Settled id may_end r (settle_failure w id app r s).1
  unfolding settle_failure attempt ◌>>=◌
  Settled-failure (returns a) s (t, (h, z)) = (t, (h, (z, λ x. absurd cc)))
  Settled-failure (raised context_ended) s (t, (h, (i, e))) = (
    t,
    (
      Calm-notify.same t _
          (subst (On id may_end t) (sym (ended-finish w id app _ (some "context ended") s e)) h),
      ((λ b. absurd (let o = ap is_some e in let k = h.1.1 in cc)), λ _. i),
    ),
  )
  Settled-failure (raised (message text)) s (t, (h, (i, e))) =
      let (x, (g, z)) = finish-settles id may_end w app t _ (some text) i (to_error i) refl s h in
      (x, (Calm-notify.same x _ g, (z, λ y. absurd cc)))

  give-calm :
      (r : Outcome Unit) (m : Exec Unit) (s : Run)
      → (m s).0 ≡ returns tt
      → (m >> give r) s ≡ (r, (m s).1)
  unfolding ◌>>=◌ give
  give-calm r m s e = same-then (give r) (m s).0 (m s).1 e

module _ (id : ℕ) (may_end : Bool) (unmarshal : Text → Option Fields) (w : World)
    (app : PipelineApp) (d : Deployment) where
  -- The body and the deferred functions.
  Settles-body : Settles id may_end (
      try (body unmarshal w id app d) >>= λ r.
      settle_failure w id app r >> (maintain_off w id app >> give r))
  unfolding try ◌>>=◌
  Settles-body = record {
    at = λ s h.
        let m = body unmarshal w id app d s in
        let closed = (Closes-body unmarshal w app d).at s h in
        let (t, (g, z)) = Settled-failure id may_end w app m.0 m.1 closed in
        rw
          (
            same-then (maintain_off w id app >> give m.0) _ (settle_failure w id app m.0 m.1).1
                (returned-settle_failure id may_end w app m.0 m.1),
            give-calm id may_end w app m.0 (maintain_off w id app)
                (settle_failure w id app m.0 m.1).1
                ((Calm-maintain_off id may_end w app).returned _),
          )
          (t, ((Calm-maintain_off id may_end w app).same t _ g, z));
  }

  pub Settles-started : Settles id may_end (started unmarshal w id app d)
  unfolding started
  Settles-started = Settles-Calm _ _ (Calm-attempt _ (Stays-set_app_status _)) (
      Settles-Calm _ _ (Calm-attempt _ (Stays-set_suspended _))
        (Settles-Calm _ _ (Calm-maintain_on id may_end w app) Settles-body))
