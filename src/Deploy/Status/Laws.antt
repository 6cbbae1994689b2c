-- ===== src/Deploy/Status/Laws.antt =====
-- DeriveAppStatus of api/internal/deploy/status.go against the priority table of its comment.
use vac.Prelude.{
  Bool, true, false, not, ◌&&◌, ◌||◌, List, [], ◌∷◌, any, if◌then◌else◌, Option, none, some, ◌≡◌,
  ◌∙◌, refl, arith,
}
use vac.Deploy.Status.{
  ServiceStatus, created, building, deploying, running, degraded, crash_loop, stopped, error, Seen,
  nothing_seen, see_all, settle, derive_app_status,
}

abbrev pub is_running : ServiceStatus → Bool
is_running running = true
is_running _ = false

abbrev pub is_crash_loop : ServiceStatus → Bool
is_crash_loop crash_loop = true
is_crash_loop _ = false

abbrev pub is_building : ServiceStatus → Bool
is_building building = true
is_building _ = false

abbrev pub is_deploying : ServiceStatus → Bool
is_deploying deploying = true
is_deploying _ = false

abbrev pub is_error : ServiceStatus → Bool
is_error error = true
is_error _ = false

-- The priority table, read off the whole list at once: no loop, no flags, no early return.
abbrev pub priority : List ServiceStatus → ServiceStatus
priority ss =
    if any is_crash_loop ss
    then crash_loop
    else if not (any (λ s. not (is_running s)) ss)
    then running
    else if any is_building ss
    then building
    else if any is_deploying ss
    then deploying
    else if any is_error ss
    then error
    else degraded

-- The table for a loop that starts from flags already set.
abbrev table : Seen → List ServiceStatus → ServiceStatus
table f ss =
    if any is_crash_loop ss
    then crash_loop
    else if f.all_running && not (any (λ s. not (is_running s)) ss)
    then running
    else if f.has_building || any is_building ss
    then building
    else if f.has_deploying || any is_deploying ss
    then deploying
    else if f.has_error || any is_error ss
    then error
    else degraded

abbrev outcome : Option Seen → ServiceStatus
outcome none = crash_loop
outcome (some f) = settle f

see_all-table : (f : Seen) (ss : List ServiceStatus) → outcome (see_all f ss) ≡ table f ss
unfolding see_all settle
see_all-table f [] = ground arith
see_all-table f (created ∷ ss) = see_all-table _ ss ∙ ground arith
see_all-table f (building ∷ ss) = see_all-table _ ss ∙ ground arith
see_all-table f (deploying ∷ ss) = see_all-table _ ss ∙ ground arith
see_all-table f (running ∷ ss) = see_all-table _ ss ∙ ground arith
see_all-table f (degraded ∷ ss) = see_all-table _ ss ∙ ground arith
see_all-table f (crash_loop ∷ ss) = refl
see_all-table f (stopped ∷ ss) = see_all-table _ ss ∙ ground arith
see_all-table f (error ∷ ss) = see_all-table _ ss ∙ ground arith

-- The specification: the table for a non-empty list, created for an app with no service.
abbrev pub expected : List ServiceStatus → ServiceStatus
expected [] = created
expected (s ∷ ss) = priority (s ∷ ss)

-- The stack status of an app with at least one service is the one that the priority table gives,
-- whatever the order of the services: crash-loop first, then all running, building, deploying,
-- error, and degraded for the rest. An app with no service is created.
pub derive_app_status-expected : (ss : List ServiceStatus) → derive_app_status ss ≡ expected ss
unfolding derive_app_status
derive_app_status-expected [] = refl
derive_app_status-expected (s ∷ ss) = ground (arith, see_all-table nothing_seen (s ∷ ss))
