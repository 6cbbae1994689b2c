-- ===== src/Deploy/Tests.antt =====
-- The theorems on the deployments table at the tables of Samples.
use vac.Deploy.Table.Create.{create_deployment-excludes}
use vac.Deploy.Invariant.Preserved.{execute-ordered}
use vac.Deploy.Table.RoundTrip.{unqueue_approval-approve_deployment}
use vac.Deploy.Retention.{prune_deployments}
use vac.Deploy.Table.Settled.{execute-In_settled, interrupted_all}
use vac.Deploy.Invariant.{ordered}
use vac.Deploy.Status.{scheduled}
use vac.Deploy.Samples.{
  by_id, made_table, old_row, table, approved_table, parked_row, approved_row, made_row,
}
use vac.Prelude.{In, arith, none, ◌≡◌, count, true, ◌||◌, keep, inl, inr, refl}
use vac.Deploy.Schema.{
  holds_lane, in_flight, Db, exec_returning, insert_row, exec, err, ok, active_deployment_exists,
  is_scheduled, is_pending,
}
use vac.Deploy.Statement.{approve, execute}
use vac.Deploy.Table.{
  approve_deployment, create_deployment, mark_in_progress_deployments_interrupted, unqueue_approval,
  create_deployment_with_status,
}
use vac.Deploy.Invariant.Parked.{Irreflexive, survivor, prune-spares_lane}

by_id-Irreflexive : Irreflexive by_id
by_id-Irreflexive a = ground arith

execute-ordered_example : ordered approved_table.rows ≡ true
unfolding execute approve_deployment exec_returning exec holds_lane
execute-ordered_example =
    execute-ordered by_id 50 (approve 2 4) table {db' = approved_table} tt refl refl

prune-spares_lane_example :
    In
      (survivor by_id by_id-Irreflexive 1 table.rows parked_row)
      (prune_deployments by_id 1 table).1.rows
unfolding holds_lane
prune-spares_lane_example =
    prune-spares_lane by_id by_id-Irreflexive 1 table parked_row (ground arith) refl (inl refl) refl

create_deployment-excludes_example :
    (create_deployment 6 60 3 "manual" none made_table ≡ err active_deployment_exists)
    × (create_deployment_with_status 6 60 3 "manual" scheduled none made_table
        ≡ err active_deployment_exists)
unfolding create_deployment insert_row holds_lane
create_deployment-excludes_example =
    create_deployment-excludes 5 50 3 "push" none table made_table made_row refl 6 60 "manual"
      scheduled none refl

interrupted_all_example :
    (db' : Db) × (mark_in_progress_deployments_interrupted 50 table
      ≡ ok (count (λ d. in_flight d.status) table.rows, db'))
    × (keep (λ d. holds_lane d.status) db'.rows
        ≡ keep (λ d. is_scheduled d.status || is_pending d.status) table.rows)
unfolding holds_lane
interrupted_all_example = interrupted_all 50 table refl

execute-In_settled_example : In old_row approved_table.rows
unfolding execute approve_deployment exec_returning exec holds_lane
execute-In_settled_example =
    execute-In_settled by_id 50 (approve 2 4) table {db' = approved_table} old_row tt
      (inr (inr (inr (inl refl)))) refl refl

unqueue_approval-approve_deployment_example : unqueue_approval 2 4 approved_table ≡ ok table
unfolding approve_deployment exec_returning exec holds_lane
unqueue_approval-approve_deployment_example =
    unqueue_approval-approve_deployment 2 4 table approved_table approved_row refl refl
