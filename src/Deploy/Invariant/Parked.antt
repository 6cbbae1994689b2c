-- ===== src/Deploy/Invariant/Parked.antt =====
-- PruneDeployments of api/internal/store/deployments.go: what retention never deletes.
use vac.Deploy.Retention.{prune_deployments, clear_dangling, is_kept, rank, is_latest_running}
use vac.Deploy.Schema.{Db, Deployment, holds_lane, in_flight}
use vac.Prelude.{
  ℕ, Bool, List, ◌≡◌, ◌<◌, In, any, false, keep, true, ◌==◌, arith, ◌∷◌, In-map, inl, [], In-keep,
  not-eq-true, refl, &&-eq-true, inr, In-any, subst, sym, ◌⊎◌, lt→ltb,
}
use vac.Deploy.Invariant.{clash, ordered}

abbrev pub Irreflexive : (ℕ → ℕ → Bool) → Type 0
Irreflexive tie = (a : ℕ) → tie a a ≡ false

module _ (tie : ℕ → ℕ → Bool) (irr : Irreflexive tie) where
  rank_behind :
      (d : Deployment) (ds : List Deployment) → any (clash d) ds ≡ false → rank tie ds d ≡ 0
  rank_behind d [] h = refl
  rank_behind d (e ∷ es) h = ground (arith, rank_behind d es)

  rank_head :
      (d : Deployment) (ds : List Deployment) → any (clash d) ds ≡ false → rank tie (d ∷ ds) d ≡ 0
  rank_head d ds h = ground (arith, irr d.id, rank_behind d ds)

  other_app :
      (d e : Deployment)
      → holds_lane e.status ≡ true
      → clash d e ≡ false
      → (d.app_id == e.app_id) ≡ false
  other_app d e l h = ground arith

  -- A row in its lane has no newer row of its app.
  rank-zero :
      (rows : List Deployment) (d : Deployment)
      → In d rows
      → ordered rows ≡ true
      → holds_lane d.status ≡ true
      → rank tie rows d ≡ 0
  rank-zero [] d m o l = elim m [ ]
  rank-zero (x ∷ xs) d (inl e) o l =
      subst (λ y. rank tie (x ∷ xs) y ≡ 0) (sym e)
        (rank_head x xs (not-eq-true _ (&&-eq-true _ _ o).0))
  rank-zero (x ∷ xs) d (inr m) o l =
      let apart = other_app x d l (In-any (clash x) xs m (not-eq-true _ (&&-eq-true _ _ o).0)) in
      rw apart (omega (arith, rank-zero xs d m (&&-eq-true _ _ o).1 l))

  -- The image of a row in what is left: its rolled_back_from is cleared if the source is gone.
  abbrev pub survivor : ℕ → List Deployment → Deployment → Deployment
  survivor keep_n rows = clear_dangling (keep (is_kept tie keep_n rows) rows)

  kept_survives :
      (keep_n : ℕ) (db : Db) (d : Deployment)
      → 0 < keep_n
      → In d db.rows
      → is_kept tie keep_n db.rows d ≡ true
      → In (survivor keep_n db.rows d) (prune_deployments tie keep_n db).1.rows
  unfolding prune_deployments
  kept_survives keep_n db d pos m k =
      let nz : (keep_n == 0) ≡ false = ground arith in rw nz (In-map _ _ d (In-keep _ db.rows m k))

  -- A row that holds its app's lane, parked ones (scheduled, pending-approval) included, is never
  -- pruned while the rows are in order and at least one deployment per app is kept: although the
  -- DELETE spares only the five in-flight statuses by name, such a row is the newest of its app.
  pub prune-spares_lane :
      (keep_n : ℕ) (db : Db) (d : Deployment)
      → 0 < keep_n
      → ordered db.rows ≡ true
      → In d db.rows
      → holds_lane d.status ≡ true
      → In (survivor keep_n db.rows d) (prune_deployments tie keep_n db).1.rows
  prune-spares_lane keep_n db d pos o m l =
      kept_survives keep_n db d pos m (ground (arith, rank-zero db.rows d m o l))

  -- The rows that retention spares, whatever the state of the table, if at least one deployment per
  -- app is to be kept: those in one of the five in-flight statuses, the keepN newest of each app,
  -- and the newest running one of each app.
  pub prune-spares :
      (keep_n : ℕ) (db : Db) (d : Deployment)
      → 0 < keep_n
      → In d db.rows
      → (in_flight d.status ≡ true)
        ⊎ ((rank tie db.rows d < keep_n) ⊎ (is_latest_running tie db.rows d ≡ true))
      → In (survivor keep_n db.rows d) (prune_deployments tie keep_n db).1.rows
  prune-spares keep_n db d pos m why = kept_survives keep_n db d pos m (why_kept why)
    where
      why_kept :
          (in_flight d.status ≡ true)
            ⊎ ((rank tie db.rows d < keep_n) ⊎ (is_latest_running tie db.rows d ≡ true))
          → is_kept tie keep_n db.rows d ≡ true
      why_kept (inl f) = rw f
      why_kept (inr (inl r)) = rw (lt→ltb _ _ r) (ground arith)
      why_kept (inr (inr r)) = rw r (ground arith)
