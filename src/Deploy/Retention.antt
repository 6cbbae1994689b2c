-- ===== src/Deploy/Retention.antt =====
-- PruneDeployments of api/internal/store/deployments.go. ORDER BY triggered_at DESC leaves rows of
-- one instant in an order that Postgres chooses: `tie a b` says that it puts row a ahead of row b.
-- A keepN below zero is a no-op like zero, so keepN is a natural number.
use vac.Prelude.{
  ℕ, Bool, not, ◌&&◌, ◌||◌, List, none, some, any, count, keep, ltb, ◌==◌, if◌then◌else◌, length,
  ◌-◌, map,
}
use vac.Deploy.Schema.{Deployment, Db, in_flight, is_running, has_id}

-- ON DELETE SET NULL of rolled_back_from (migration 00020).
abbrev pub clear_dangling : List Deployment → Deployment → Deployment
clear_dangling rows d = elim d.rolled_back_from [
  | none ↦ d
  | some source ↦ if any (has_id source) rows then d else record d { rolled_back_from = none }
]

module _ (tie : ℕ → ℕ → Bool) where
  -- Whether e stands ahead of d in ORDER BY triggered_at DESC.
  abbrev pub newer : Deployment → Deployment → Bool
  newer e d =
      ltb d.triggered_at e.triggered_at || (d.triggered_at == e.triggered_at && tie e.id d.id)

  -- row_number() OVER (PARTITION BY app_id ORDER BY triggered_at DESC) - 1
  abbrev pub rank : List Deployment → Deployment → ℕ
  rank rows d = count (λ e. e.app_id == d.app_id && newer e d) rows

  -- SELECT DISTINCT ON (app_id) … WHERE status = 'running' ORDER BY app_id, triggered_at DESC
  abbrev pub is_latest_running : List Deployment → Deployment → Bool
  is_latest_running rows d =
      is_running d.status
      && not (any (λ e. e.app_id == d.app_id && is_running e.status && newer e d) rows)

  -- What the DELETE leaves.
  abbrev pub is_kept : ℕ → List Deployment → Deployment → Bool
  is_kept keep_n rows d = in_flight d.status || ltb (rank rows d) keep_n || is_latest_running rows d

  unfoldable pub prune_deployments : ℕ → Db → ℕ × Db
  prune_deployments keep_n db =
      let left = keep (is_kept keep_n db.rows) db.rows in
      if keep_n == 0
      then (0, db)
      else (length db.rows - length left, record db { rows = map (clear_dangling left) left })
