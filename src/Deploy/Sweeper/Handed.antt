-- ===== src/Deploy/Sweeper/Handed.antt =====
-- What the sweep of api/internal/deploy/window_sweeper.go leaves queued: only rows that the worker
-- was given.
use vac.Deploy.Table.RoundTrip.{unqueue_scheduled-release}
use vac.Deploy.Schema.Success.{Result-cases, exec_found_rows}
use vac.Deploy.Schema.Laws.{lanes_unique-update, exec_any_ok}
use vac.Deploy.Invariant.{ordered}
use vac.Deploy.Sweeper.{
  offer, release_one, sweep, sweep_all, ScheduledDeploy, list_scheduled_deployments, may_release,
}
use vac.Deploy.Table.{unqueue_scheduled, release_scheduled_deployment}
use vac.Deploy.Status.{queued, scheduled}
use vac.Deploy.Schema.{
  Deployment, update_rows, has_id, is_queued, is_scheduled, Db, holds_lane, lanes_unique, ok,
}
use vac.Prelude.{
  ℕ, List, Bool, elem, ◌++◌, ◌≡◌, ◌&&◌, some, ◌∷◌, [], any, not, false, ◌||◌, ◌==◌, arith,
  ||-eq-false, refl, Option, true, Bool-cases, Option-cases, none, ◌≤◌, length, inr, inl,
}
use vac.Deploy.Worker.{Worker, enqueue}

-- Whether a row is queued while the worker's queue does not list it.
abbrev pub stranded : Worker → Deployment → Bool
stranded w d = is_queued d.status && not (elem d.id w.queue)

-- Release and revert of one row, on the rows.
abbrev released : ℕ → List Deployment → List Deployment
released id =
    update_rows (λ d. has_id id d && is_scheduled d.status) (λ d. record d { status = queued })

elem-append : (a b : ℕ) (xs : List ℕ) → elem a (xs ++ b ∷ []) ≡ elem a xs || b == a
elem-append a b [] = ground arith
elem-append a b (x ∷ xs) = ground (arith, elem-append a b xs)

enqueue-queue : (id : ℕ) (w w' : Worker) → enqueue id w ≡ some w' → w'.queue ≡ w.queue ++ id ∷ []
unfolding enqueue
enqueue-queue id w w' h = ground arith

enqueued_none :
    (id : ℕ) (w w' : Worker) (rows : List Deployment)
    → enqueue id w ≡ some w'
    → any (stranded w) rows ≡ false
    → any (stranded w') (released id rows) ≡ false
enqueued_none id w w' [] h n = refl
enqueued_none id w w' (d ∷ ds) h n =
    let rest : any (stranded w') (released id ds) ≡ false =
      enqueued_none id w w' ds h (||-eq-false (stranded w d) (any (stranded w) ds) n).1 in
    let listed : elem d.id w'.queue ≡ elem d.id w.queue || id == d.id =
      rw (enqueue-queue id w w' h) (elem-append d.id id w.queue) in
    ground (arith, rest, listed)

reverted_none :
    (id : ℕ) (w : Worker) (rows : List Deployment)
    → any (stranded w) rows ≡ false
    → any (stranded w) (
        update_rows
          (λ d. has_id id d && is_queued d.status)
          (λ d. record d { status = scheduled })
          (released id rows))
      ≡ false
reverted_none id w [] n = refl
reverted_none id w (d ∷ ds) n =
    ground (arith, reverted_none id w ds (||-eq-false (stranded w d) (any (stranded w) ds) n).1)

abbrev IsHanded : Db × Worker → Type 0
IsHanded (db, w) = (lanes_unique db.rows ≡ true) × (any (stranded w) db.rows ≡ false)

release_lanes :
    (id : ℕ) (db : Db) → lanes_unique db.rows ≡ true → lanes_unique (released id db.rows) ≡ true
unfolding holds_lane
release_lanes id db u =
    lanes_unique-update (λ d. has_id id d && is_scheduled d.status)
      (λ d. record d { status = queued }) (λ d h. (refl, λ l. ground arith)) db.rows u

offer-IsHanded :
    (id : ℕ) (db db' : Db) (w : Worker)
    → db'.rows ≡ released id db.rows
    → IsHanded (db, w)
    → IsHanded (offer id (db', w))
unfolding unqueue_scheduled holds_lane
offer-IsHanded id db db' w left (u, n) =
    let u' : lanes_unique db'.rows ≡ true = rw left (release_lanes id db u) in
    elim (Option-cases (enqueue id w)) [
      | inr (w', room) ↦ rw room (u', rw left (enqueued_none id w w' db.rows room n))
      | inl full ↦
          let back =
            exec_any_ok (λ d. has_id id d && is_queued d.status)
              (λ d. record d { status = scheduled }) (λ d h. (refl, λ l. ground arith)) db' u' in
          let u'' =
            lanes_unique-update (λ d. has_id id d && is_queued d.status)
              (λ d. record d { status = scheduled }) (λ d h. (refl, λ l. ground arith)) db'.rows
              u' in
          rw (full, back) (u'', rw left (reverted_none id w db.rows n))
    ]

offer_full :
    (id : ℕ) (db db' : Db) (w : Worker)
    → enqueue id w ≡ none
    → unqueue_scheduled id db' ≡ ok db
    → offer id (db', w) ≡ (db, w)
offer_full id db db' w full back = rw (full, back) refl

module _ {Schedule : Type 0} (decode : List ℕ → Option (List Schedule))
    (allows : ℕ → List Schedule → Bool) where
  release_one-IsHanded :
      (now : ℕ) (s : ScheduledDeploy) (db : Db) (w : Worker)
      → IsHanded (db, w)
      → IsHanded (release_one decode allows now s (db, w))
  unfolding release_one release_scheduled_deployment
  release_one-IsHanded now s db w handed =
      elim (Bool-cases (may_release decode allows now s.deploy_window)) [
        | inr shut ↦ rw shut handed
        | inl now_open ↦ elim (Result-cases (release_scheduled_deployment s.deployment_id db)) [
          | inr (e, gone) ↦ rw (now_open, gone) handed
          | inl (db', done) ↦
              rw (now_open, done)
                (offer-IsHanded s.deployment_id db db' w (exec_found_rows _ _ db done) handed)
        ]
      ]

  sweep_all-IsHanded :
      (now : ℕ) (ds : List ScheduledDeploy) (db : Db) (w : Worker)
      → IsHanded (db, w)
      → IsHanded (sweep_all decode allows now ds (db, w))
  unfolding sweep_all
  sweep_all-IsHanded now [] db w handed = handed
  sweep_all-IsHanded now (d ∷ ds) db w handed =
      let (db', w') = release_one decode allows now d (db, w) in
      sweep_all-IsHanded now ds db' w' (release_one-IsHanded now d db w handed)

  -- The sweep strands no row: if no app has two rows in its lane and every queued row is in the
  -- worker's queue before it, then so it is after it, whatever is released, refused or sent back.
  pub sweep-stranded :
      (tie : ℕ → ℕ → Bool) (now : ℕ) (db : Db) (w : Worker)
      → lanes_unique db.rows ≡ true
      → any (stranded w) db.rows ≡ false
      → (lanes_unique (sweep decode allows tie now (db, w)).0.rows ≡ true)
        × (any
              (stranded (sweep decode allows tie now (db, w)).1)
              (sweep decode allows tie now (db, w)).0.rows
            ≡ false)
  unfolding sweep
  sweep-stranded tie now db w u n =
      sweep_all-IsHanded now (list_scheduled_deployments tie db) db w (u, n)

  refused_one :
      (now : ℕ) (s : ScheduledDeploy) (db : Db) (w : Worker)
      → ordered db.rows ≡ true
      → enqueue s.deployment_id w ≡ none
      → release_one decode allows now s (db, w) ≡ (db, w)
  unfolding release_one
  refused_one now s db w o full =
      elim (Bool-cases (may_release decode allows now s.deploy_window)) [
        | inr shut ↦ rw shut refl
        | inl now_open ↦ elim (Result-cases (release_scheduled_deployment s.deployment_id db)) [
          | inr (e, gone) ↦ rw (now_open, gone) refl
          | inl (db', done) ↦
              rw (now_open, done, full, unqueue_scheduled-release s.deployment_id db db' o done)
                refl
        ]
      ]

  refused_all :
      (now : ℕ) (ds : List ScheduledDeploy) (db : Db) (w : Worker)
      → ordered db.rows ≡ true
      → ((id : ℕ) → enqueue id w ≡ none)
      → sweep_all decode allows now ds (db, w) ≡ (db, w)
  unfolding sweep_all
  refused_all now [] db w o full = refl
  refused_all now (d ∷ ds) db w o full =
      rw (refused_one now d db w o (full d.deployment_id)) (refused_all now ds db w o full)

  -- While the worker's queue is full, a sweep changes nothing, on a table in order: every row that it
  -- releases is parked again, and no other row, nor the worker, differs from before.
  pub sweep-full_queue :
      (tie : ℕ → ℕ → Bool) (now : ℕ) (db : Db) (w : Worker)
      → ordered db.rows ≡ true
      → w.capacity ≤ length w.queue
      → sweep decode allows tie now (db, w) ≡ (db, w)
  unfolding sweep enqueue
  sweep-full_queue tie now db w o full =
      refused_all now (list_scheduled_deployments tie db) db w o (λ id. ground arith)
