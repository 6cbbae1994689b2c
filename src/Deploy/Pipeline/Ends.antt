-- ===== src/Deploy/Pipeline/Ends.antt =====
-- How a run of api/internal/deploy/pipeline.go ends, stage by stage: by a status that settles the deployment,
-- or by an error that the deferred function settles.
use vac.Deploy.Schema.Laws.{exec_found_ok}
use vac.Deploy.Table.Settled.{holds_lane-is_terminal}
use vac.Prelude.{
  ℕ, Bool, ◌≡◌, false, true, refl, Option, String, if◌then◌else◌, none, some, suc, sym, ap, is_some,
  ◌∙◌, zero, arith,
}
use vac.Deploy.Pipeline.{Run, World, PipelineApp, context_ended, message, Call}
use vac.Deploy.Pipeline.Steps.{
  Exec, Outcome, returns, raised, attempt, let_through, continue, ◌>>=◌, ◌>>◌, write_status, gave,
  note_call, wrap, wrapped,
}
use vac.Deploy.Pipeline.Lifecycle.{On, IsStored, IsStored-update, Next, then_to}
use vac.Deploy.Pipeline.Stays.{Stays, Cut, Ended}
use vac.Deploy.Pipeline.Deploy.{finish, set_status}
use vac.Deploy.Status.{DeploymentStatus, is_terminal}
use vac.Deploy.Table.{update_deployment_status}
use vac.Deploy.Schema.{has_id, Deployment, in_flight, Db, Result, ok, err, holds_lane, not_found}

module _ (id : ℕ) (may_end : Bool) where
  -- Behind the body of a run.
  abbrev pub Closed : Outcome Unit → Run → Type 0
  Closed (returns _) s =
      (st : DeploymentStatus) × (On id may_end st s × (may_end ≡ false → is_terminal st ≡ true))
  Closed (raised e) s =
      (st : DeploymentStatus) × (On id may_end st s × ((in_flight st ≡ true) × Ended e s))

  pub record Closes (st : DeploymentStatus) (m : Exec Unit) : Type 0 where
    pub at : (s : Run) → On id may_end st s → Closed (m s).0 (m s).1

  -- A step that does not fail and leaves the status alone.
  pub record Calm (m : Exec Unit) : Type 0 where
    pub returned : (s : Run) → (m s).0 ≡ returns tt
    pub same : (st : DeploymentStatus) (s : Run) → On id may_end st s → On id may_end st (m s).1

pub same-then :
    (n : Exec Unit) (r : Outcome Unit) (s : Run) → r ≡ returns tt → continue r (λ _. n) s ≡ n s
same-then n (returns a) s e = refl
same-then n (raised x) s e = absurd cc

module _ {id : ℕ} {may_end : Bool} where
  pub Calm-attempt : {A : Type 0} (m : Exec A) → Stays id may_end m → Calm id may_end (attempt m)
  unfolding attempt
  Calm-attempt m k = record { returned = λ s. refl; same = k.keeps }

  pub Calm-note_call : (c : Call) → Calm id may_end (note_call c)
  unfolding note_call
  Calm-note_call c = record { returned = λ s. refl; same = λ st s h. h }

  pub Calm-then :
      (m n : Exec Unit) → Calm id may_end m → Calm id may_end n → Calm id may_end (m >> n)
  unfolding ◌>>=◌
  Calm-then m n km kn = record {
    returned = λ s. rw (same-then n (m s).0 (m s).1 (km.returned s)) (kn.returned (m s).1);
    same = λ st s h.
        rw (same-then n (m s).0 (m s).1 (km.returned s)) (kn.same st (m s).1 (km.same st s h));
  }

  Closed-continue :
      {A : Type 0} (f : A → Exec Unit) (st : DeploymentStatus)
      → in_flight st ≡ true
      → ((a : A) → Closes id may_end st (f a))
      → (r : Outcome A) (s : Run) → On id may_end st s
      → Cut r s
      → Closed id may_end (continue r f s).0 (continue r f s).1
  Closed-continue f st i kf (returns a) s h c = (kf a).at s h
  Closed-continue f st i kf (raised e) s h c = (st, (h, (i, c)))

  -- A stage that leaves the status alone, and the rest of the run.
  pub Closes-bind :
      {A : Type 0} (st : DeploymentStatus) (m : Exec A) (f : A → Exec Unit)
      → in_flight st ≡ true
      → Stays id may_end m
      → ((a : A) → Closes id may_end st (f a))
      → Closes id may_end st (m >>= f)
  unfolding ◌>>=◌
  Closes-bind st m f i km kf = record {
    at = λ s h. Closed-continue f st i kf (m s).0 (m s).1 (km.keeps st s h) (km.cut s);
  }

module _ (id : ℕ) (may_end : Bool) (st st' : DeploymentStatus) where
  -- Behind a write of a status: it is written, or the write failed and left the status alone.
  abbrev Moved : Outcome Unit → Run → Type 0
  Moved (returns _) s = On id may_end st' s
  Moved (raised e) s = On id may_end st s × Ended e s

  Moved-wrapped :
      (note : String) (r : Outcome Unit) (s : Run) → Moved r s → Moved (wrapped note r) s
  Moved-wrapped note (returns a) s h = h
  Moved-wrapped note (raised context_ended) s h = h
  Moved-wrapped note (raised (message text)) s h = (h.0, tt)

  module _ (f : Db → Result Db) (next : Next st st')
      (moves : (db db' : Db) → f db ≡ ok db' → IsStored id st db → IsStored id st' db') where
    Moved-gave :
        (s : Run) (r : Result Db)
        → f s.db ≡ r
        → On id may_end st s
        → Moved (gave st' s r).0 (gave st' s r).1
    Moved-gave s (ok db) e h = (moves s.db db e h.0, (then_to h.1.0 next, h.1.1))
    Moved-gave s (err x) e h = (h, tt)

    Moved-let_through :
        (l : Option ℕ) (s : Run)
        → s.left ≡ l
        → On id may_end st s
        → Moved
            (let_through l (λ s. gave st' s (f s.db)) s).0
            (let_through l (λ s. gave st' s (f s.db)) s).1
    Moved-let_through none s e h = Moved-gave s (f s.db) refl h
    Moved-let_through (some zero) s e h = (h, e)
    Moved-let_through (some (suc n)) s e h =
        Moved-gave (record s { left = some n }) (f s.db) refl
          (h.0, (h.1.0, sym (ap is_some e) ∙ h.1.1))

    Moved-write_status :
        (s : Run) → On id may_end st s → Moved (write_status st' f s).0 (write_status st' f s).1
    unfolding write_status
    Moved-write_status s h = Moved-let_through s.left s refl h

  Closed-Moved :
      (n : Exec Unit)
      → in_flight st ≡ true
      → Closes id may_end st' n
      → (r : Outcome Unit) (s : Run) → Moved r s
      → Closed id may_end (continue r (λ _. n) s).0 (continue r (λ _. n) s).1
  Closed-Moved n i k (returns a) s h = k.at s h
  Closed-Moved n i k (raised e) s h = (st, (h.0, (i, h.1)))

if-status :
    (b : Bool) (d f : Deployment) {st : DeploymentStatus}
    → b ≡ true
    → f.status ≡ st
    → (if b then f else d).status ≡ st
if-status true d f e h = h
if-status false d f e h = absurd cc

module _ {id : ℕ} {may_end : Bool} (w : World) (app : PipelineApp) where
  -- A write of the next status, and the rest of the run.
  pub Closes-set_status :
      (st st' : DeploymentStatus) (n : Exec Unit)
      → in_flight st ≡ true
      → Next st st'
      → Closes id may_end st' n
      → Closes id may_end st (set_status w id app st' >> n)
  unfolding set_status wrap ◌>>=◌
  Closes-set_status st st' n i next k = record {
    at = λ s h.
        let m = write_status st' (update_deployment_status id st' none) in
        Closed-Moved id may_end st st' n i k (wrapped "pipeline: set status: " (m s).0) (m s).1 (
          Moved-wrapped id may_end st st' _ (m s).0 (m s).1 (
            Moved-write_status id may_end st st' _ next
              (λ db db' e j.
                IsStored-update id st st' _ _ db (λ d. refl)
                  (λ d t _. if-status (has_id id d) d _ t refl) e j)
              s h));
  }

Closed-Calm :
    (id : ℕ) (may_end : Bool) (r : Outcome Unit) (s : Run)
    → r ≡ returns tt
    → (st : DeploymentStatus) × (On id may_end st s × (may_end ≡ false → is_terminal st ≡ true))
    → Closed id may_end r s
Closed-Calm id may_end (returns a) s e h = h
Closed-Calm id may_end (raised x) s e h = absurd cc

pub if-ok : (b : Bool) (db : Db) → b ≡ true → (if b then ok db else err not_found) ≡ ok db
if-ok b db e = rw e refl

pub none-of : {A : Type 0} (o : Option A) → is_some o ≡ false → o ≡ none
none-of none h = refl
none-of (some a) h = absurd cc

returned-write_status :
    (st : DeploymentStatus) (f : Db → Result Db) (s : Run) {db : Db}
    → s.left ≡ none
    → f s.db ≡ ok db
    → (write_status st f s).0 ≡ returns tt
unfolding write_status
returned-write_status st f s e k = rw (e, k) refl

module _ (id : ℕ) (may_end : Bool) (w : World) (app : PipelineApp) (st st' : DeploymentStatus)
    (text : Option String) where
  Moved-finish :
      Next st st'
      → (s : Run) → On id may_end st s
      → Moved id may_end st st' (finish w id app st' text s).0 (finish w id app st' text s).1
  unfolding finish
  Moved-finish next = Moved-write_status id may_end st st' _ next (λ db db' e j.
      IsStored-update id st st' _ _ db (λ d. refl) (λ d t _. if-status (has_id id d) d _ t refl) e
        j)

  -- Where the context does not end, the deployment is settled.
  returned-finish :
      is_terminal st' ≡ true
      → may_end ≡ false
      → (s : Run) → On id may_end st s
      → (finish w id app st' text s).0 ≡ returns tt
  unfolding finish
  returned-finish t b s h =
      let free : holds_lane st' ≡ false = ground (arith, t, holds_lane-is_terminal st') in
      returned-write_status st' _ s (none-of s.left (h.1.1 ∙ b))
        (exec_found_ok (has_id id) _ (λ d _. (refl, λ l. absurd cc)) s.db h.0.0 ∙ if-ok _ _ h.0.1.0)

  Closed-finish :
      in_flight st ≡ true
      → is_terminal st' ≡ true
      → (r : Outcome Unit) (s : Run) → Moved id may_end st st' r s
      → (may_end ≡ false → r ≡ returns tt)
      → (t : DeploymentStatus) × (On id may_end t s × (may_end ≡ false → is_terminal t ≡ true))
  Closed-finish i t (returns a) s h k = (st', (h, λ _. t))
  Closed-finish i t (raised e) s h k = (st, (h.0, λ b. absurd (let n = k b in cc)))

  -- The deployment is settled as the run's last act on it.
  pub finish-settles :
      in_flight st ≡ true
      → Next st st'
      → is_terminal st' ≡ true
      → (s : Run) → On id may_end st s
      → (t : DeploymentStatus) × (On id may_end t (finish w id app st' text s).1
          × (may_end ≡ false → is_terminal t ≡ true))
  finish-settles i next t s h =
      Closed-finish i t _ _ (Moved-finish next s h) (λ b. returned-finish t b s h)

  pub Closes-finish :
      (n : Exec Unit)
      → in_flight st ≡ true
      → Next st st'
      → is_terminal st' ≡ true
      → Calm id may_end n
      → Closes id may_end st (attempt (finish w id app st' text) >> n)
  unfolding attempt ◌>>=◌
  Closes-finish n i next t k = record {
    at = λ s h.
        let (x, (g, z)) = finish-settles i next t s h in
        Closed-Calm id may_end _ _ (k.returned _) (x, (k.same x _ g, z));
  }
