-- ===== src/Deploy/Pipeline/Rows.antt =====
-- What Run of api/internal/deploy/pipeline.go leaves in the deployment's row, whatever the programs and
-- services that it calls answer.
use vac.Prelude.{
  ℕ, Bool, Text, Option, if◌then◌else◌, ◌≡◌, [], true, is_some, false, refl, subst, sym,
}
use vac.Deploy.Pipeline.{Run, World, PipelineApp, context_ended}
use vac.Deploy.Pipeline.Steps.{Exec, Outcome, returns, raised, continue, ◌>>=◌, pure}
use vac.Deploy.Pipeline.Lifecycle.{On, IsStored, IsAt, Leads, at_start}
use vac.Deploy.Pipeline.Stays.{Stays, Stays-query, Stays-ask, Stays-wrap}
use vac.Deploy.Pipeline.Stages.{Stays-mark_deployment_started}
use vac.Deploy.Pipeline.Settles.{Settles-started}
use vac.Deploy.Pipeline.Deploy.{started, load, run}
use vac.Deploy.Schema.{Deployment, in_flight}
use vac.Deploy.Status.{DeploymentStatus, is_terminal, queued}
use vac.Compose.{Fields}

module _ (id : ℕ) (may_end : Bool) where
  -- In every case the writes lead to the row's status, and the context's error leaves it in flight.
  abbrev pub Followed : Outcome Unit → Run → Type 0
  Followed r s =
      (t : DeploymentStatus) × (On id may_end t s × (r ≡ raised context_ended → in_flight t ≡ true))

  record Follows (m : Exec Unit) : Type 0 where
    at : (s : Run) → On id may_end queued s → Followed (m s).0 (m s).1

module _ {id : ℕ} {may_end : Bool} where
  Followed-continue :
      {A : Type 0} (f : A → Exec Unit)
      → ((a : A) → Follows id may_end (f a))
      → (r : Outcome A) (s : Run) → On id may_end queued s
      → Followed id may_end (continue r f s).0 (continue r f s).1
  unfolding in_flight
  Followed-continue f kf (returns a) s h = (kf a).at s h
  Followed-continue f kf (raised e) s h = (queued, (h, λ x. refl))

  Follows-bind :
      {A : Type 0} (m : Exec A) (f : A → Exec Unit)
      → Stays id may_end m
      → ((a : A) → Follows id may_end (f a))
      → Follows id may_end (m >>= f)
  unfolding ◌>>=◌
  Follows-bind m f km kf = record {
    at = λ s h. Followed-continue f kf (m s).0 (m s).1 (km.keeps queued s h);
  }

  Follows-stop :
      (b : Bool) (m : Exec Unit)
      → Follows id may_end m
      → Follows id may_end (if b then pure tt else m)
  unfolding pure
  Follows-stop true m k = record { at = λ s h. (queued, (h, λ x. absurd cc)) }
  Follows-stop false m k = k

module _ (id : ℕ) (unmarshal : Text → Option Fields) (w : World) where
  Follows-started :
      (may_end : Bool) (app : PipelineApp) (d : Deployment)
      → Follows id may_end (started unmarshal w id app d)
  Follows-started may_end app d = record {
    at = λ s h.
        let (t, (g, z)) = (Settles-started id may_end unmarshal w app d).at s h in (t, (g, z.1));
  }

  Follows-run : (may_end : Bool) → Follows id may_end (run unmarshal w id)
  unfolding run load
  Follows-run may_end = Follows-bind _ _ (Stays-query _) (λ d.
      Follows-stop (is_terminal d.status) _ (
        Follows-bind _ _ (Stays-ask _) (λ app.
          Follows-bind _ _ (Stays-wrap _ _ (Stays-mark_deployment_started w.now))
            (λ _. Follows-started may_end app d))))

  pub at_queued :
      (s : Run) → IsStored id queued s.db → s.history ≡ [] → On id (is_some s.left) queued s
  at_queued s h e = (h, (subst (λ x. Leads x queued) (sym e) at_start, refl))

  -- Whatever the calls answer and whenever the context ends, a run that is handed a queued deployment
  -- writes statuses that follow the lifecycle, from queued through cloning, building, deploying and
  -- health-checking to running, with error from any of those in flight, and the row has the status to
  -- which they lead.
  pub run-Leads :
      (s : Run)
      → IsStored id queued s.db
      → s.history ≡ []
      → (t : DeploymentStatus) × (Leads (run unmarshal w id s).1.history t
          × IsAt id t (run unmarshal w id s).1.db.rows)
  run-Leads s h e =
      let (t, (g, z)) = (Follows-run (is_some s.left)).at s (at_queued s h e) in
      (t, (g.1.0, g.0.1.1))

  -- A run of a queued deployment that returns the error of its ended context leaves the deployment in
  -- flight: the deferred function writes through the same context, and its write fails too.
  pub run-ended_strands :
      (s : Run)
      → IsStored id queued s.db
      → s.history ≡ []
      → (run unmarshal w id s).0 ≡ raised context_ended
      → (t : DeploymentStatus) × (IsAt id t (run unmarshal w id s).1.db.rows × (in_flight t ≡ true))
  run-ended_strands s h e x =
      let (t, (g, z)) = (Follows-run (is_some s.left)).at s (at_queued s h e) in (t, (g.0.1.1, z x))
