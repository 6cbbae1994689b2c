-- ===== src/Deploy/Pipeline/Terminal.antt =====
-- A run of api/internal/deploy/pipeline.go whose context does not end settles its deployment.
use vac.Deploy.Schema.Laws.{exec_found_ok}
use vac.Prelude.{
  List, String, ℕ, ◌≡◌, Text, none, true, Option, ◌⊎◌, In, inl, Option-cases, inr, arith, refl,
  subst, [], false, not, All-In, is_some, ◌∙◌, any_intro, ap, ◌&&◌, &&-true,
}
use vac.Deploy.Pipeline.{Run, World, PipelineApp, Answer, answered}
use vac.Deploy.Pipeline.Steps.{Exec, returns, ◌>>=◌, query, ask, wrap, write}
use vac.Deploy.Pipeline.Lifecycle.{
  On, IsStored, IsAt, Leads, at_start, then_to, to_clone, to_build, to_deploy, to_check, to_serve,
  to_error,
}
use vac.Deploy.Pipeline.Stages.{Stays-mark_deployment_started}
use vac.Deploy.Pipeline.Stays.{Stays-wrap}
use vac.Deploy.Pipeline.Ends.{if-ok}
use vac.Deploy.Pipeline.Settles.{Settles-started}
use vac.Deploy.Pipeline.Rows.{at_queued}
use vac.Deploy.Pipeline.Deploy.{started, load, run}
use vac.Deploy.Table.{get_deployment, mark_deployment_started}
use vac.Deploy.Schema.Success.{first-found}
use vac.Deploy.Schema.{Deployment, Db, Result, ok, has_id, first}
use vac.Deploy.Status.{DeploymentStatus, is_terminal, queued, running}
use vac.Compose.{Fields}

module _ {A : Type 0} where
  query-returns :
      (f : Db → Result A) (s : Run) {a : A}
      → s.left ≡ none
      → f s.db ≡ ok a
      → query f s ≡ (returns a, s)
  unfolding query
  query-returns f s e k = rw (e, k) refl

  ask-returns :
      (x : Answer A) (s : Run) {a : A} → s.left ≡ none → x ≡ answered a → ask x s ≡ (returns a, s)
  unfolding ask
  ask-returns x s e k = rw (e, k) refl

  bind-returns :
      (m : Exec A) (f : A → Exec Unit) (s s' : Run) {a : A}
      → m s ≡ (returns a, s')
      → (m >>= f) s ≡ f a s'
  unfolding ◌>>=◌
  bind-returns m f s s' e = rw e refl

write-returns :
    (note : String) (f : Db → Result Db) (s : Run) {db : Db}
    → s.left ≡ none
    → f s.db ≡ ok db
    → (wrap note (write f) s) ≡ (returns tt, (wrap note (write f) s).1)
unfolding wrap write
write-returns note f s e k = rw (e, k) refl

-- A deployment that settles by the lifecycle is running or has an error.
Leads-terminal :
    {history : List DeploymentStatus} {t : DeploymentStatus}
    → Leads history t
    → is_terminal t ≡ true
    → (t ≡ running) ⊎ (t ≡ DeploymentStatus.error)
Leads-terminal at_start h = absurd cc
Leads-terminal (then_to p to_clone) h = absurd cc
Leads-terminal (then_to p to_build) h = absurd cc
Leads-terminal (then_to p to_deploy) h = absurd cc
Leads-terminal (then_to p to_check) h = absurd cc
Leads-terminal (then_to p to_serve) h = inl refl
Leads-terminal (then_to p (to_error i)) h = inr refl

module _ (id : ℕ) (unmarshal : Text → Option Fields) (w : World) where
  get-found :
      (d : Deployment) (db : Db) → get_deployment id db ≡ ok d → In d db.rows × (has_id id d ≡ true)
  unfolding get_deployment
  get-found d db g = elim (Option-cases (first (has_id id) db.rows)) [
    | inl no_row ↦ absurd (ground (arith, no_row, g))
    | inr (x, found) ↦
        let same : x ≡ d = ground (arith, found, g) in
        subst (λ y. In y db.rows × (has_id id y ≡ true)) same
          (first-found (has_id id) db.rows found)
  ]

  mark-ok :
      (d : Deployment) (db : Db)
      → IsStored id queued db
      → get_deployment id db ≡ ok d
      → d.started_at ≡ none
      → (db' : Db) × (mark_deployment_started w.now id db ≡ ok db')
  unfolding mark_deployment_started
  mark-ok d db h g n =
      let (m, q) = get-found d db g in
      let unstarted : not (is_some d.started_at) ≡ true = rw n refl in
      let there =
        any_intro (λ d. has_id id d && not (is_some d.started_at)) db.rows m
          (&&-true q unstarted) in
      (_, exec_found_ok _ _ (λ d _. (refl, λ l. l)) db h.0 ∙ if-ok _ _ there)

  run-started :
      (d : Deployment) (app : PipelineApp) (s : Run)
      → s.left ≡ none
      → get_deployment id s.db ≡ ok d
      → is_terminal d.status ≡ false
      → w.get_app d.app_id ≡ answered app
      → {db : Db} → mark_deployment_started w.now id s.db ≡ ok db
      → run unmarshal w id s
        ≡ started unmarshal w id app d
            (wrap "pipeline: mark started: " (write (mark_deployment_started w.now id)) s).1
  unfolding run load
  run-started d app s l g t a m =
      bind-returns _ (load unmarshal w id) s s (query-returns _ s l g)
      ∙ (rw t (
          bind-returns _ _ s s (ask-returns _ s l a)
          ∙ bind-returns _ _ s _
              (write-returns "pipeline: mark started: " (mark_deployment_started w.now id) s l m)))

  -- Whatever the programs and services answer, as long as the deploy's context does not end, a run that is
  -- handed a queued deployment that has not started, of an app that loads, settles it: the row is running
  -- or has an error.
  pub run-settles :
      (s : Run) (d : Deployment) (app : PipelineApp)
      → IsStored id queued s.db
      → s.history ≡ []
      → s.left ≡ none
      → get_deployment id s.db ≡ ok d
      → d.started_at ≡ none
      → w.get_app d.app_id ≡ answered app
      → (t : DeploymentStatus) × (IsAt id t (run unmarshal w id s).1.db.rows
          × ((t ≡ running) ⊎ (t ≡ DeploymentStatus.error)))
  run-settles s d app h e l g n a =
      let (m, q) = get-found d s.db g in
      let waits : is_terminal d.status ≡ false = rw (All-In _ s.db.rows h.1.1 m q) refl in
      let on = subst (λ b. On id b queued s) (ap is_some l) (at_queued id unmarshal w s h e) in
      let kept =
        (Stays-wrap "pipeline: mark started: " _ (Stays-mark_deployment_started w.now)).keeps queued
          s on in
      let (t, (o, (z, _))) = (Settles-started id false unmarshal w app d).at _ kept in
      rw (run-started d app s l g waits a (mark-ok d s.db h g n).1)
        (t, (o.0.1.1, Leads-terminal o.1.0 (z refl)))
