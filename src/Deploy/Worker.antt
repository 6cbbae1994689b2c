-- ===== src/Deploy/Worker.antt =====
-- api/internal/deploy/worker.go: the queue, the pool and the in-flight map of the deploy worker.
-- `published` counts the change frames of PublishDeploymentsChanged. The context of a deploy is its
-- entry in `inflight`, with whether its cancel func has been called.
pub mod Pool
mod Tests
use vac.Prelude.{
  ◌+◌, List, Option, String, ℕ, Bool, [], if◌then◌else◌, some, ◌==◌, false, ltb, none, true, length,
  ◌∷◌, ◌++◌, ◌||◌, ◌-◌,
}
use Prim.Native.String
use vac.Deploy.Status.{DeploymentStatus}
use vac.Deploy.Schema.{Db, Result, ok, err}
use vac.Deploy.Table.{mark_deployment_finished}

pub record Worker : Type 0 where
  pub queue : List ℕ
  pub capacity : ℕ
  pub concurrency : ℕ
  pub busy : ℕ  -- the goroutines of the pool that are inside process
  pub inflight : List (ℕ × Bool)
  pub published : ℕ

abbrev pub max_concurrency : ℕ
max_concurrency = 8

-- A negative setting is treated as zero is.
unfoldable pub clamp_concurrency : ℕ → ℕ
clamp_concurrency n = if ltb n 1 then 1 else if ltb max_concurrency n then max_concurrency else n

unfoldable pub new_worker : (capacity concurrency : ℕ) → Worker
unfolding clamp_concurrency
new_worker capacity concurrency = record {
  queue = [];
  capacity = if capacity == 0 then 32 else capacity;
  concurrency = clamp_concurrency concurrency;
  busy = 0;
  inflight = [];
  published = 0;
}

-- The non-blocking send on the queue; `none` is ErrQueueFull.
unfoldable pub enqueue : ℕ → Worker → Option Worker
enqueue id w =
    if ltb (length w.queue) w.capacity
    then some (record w { queue = w.queue ++ id ∷ []; published = w.published + 1 })
    else none

abbrev pub is_inflight : ℕ → List (ℕ × Bool) → Bool
is_inflight id [] = false
is_inflight id ((j, _) ∷ m) = j == id || is_inflight id m

-- inflight[id] = cancel, on a Go map.
abbrev pub register : ℕ → List (ℕ × Bool) → List (ℕ × Bool)
register id [] = (id, false) ∷ []
register id ((j, c) ∷ m) = if j == id then (id, false) ∷ m else (j, c) ∷ register id m

abbrev pub deregister : ℕ → List (ℕ × Bool) → List (ℕ × Bool)
deregister id [] = []
deregister id ((j, c) ∷ m) = if j == id then deregister id m else (j, c) ∷ deregister id m

abbrev pub mark_cancelled : ℕ → List (ℕ × Bool) → List (ℕ × Bool)
mark_cancelled id [] = []
mark_cancelled id ((j, c) ∷ m) = (j, (j == id || c)) ∷ mark_cancelled id m

-- Cancel: whether the deployment was running here.
unfoldable pub cancel : ℕ → Worker → Worker × Bool
cancel id w =
    if is_inflight id w.inflight
    then (record w { inflight = mark_cancelled id w.inflight }, true)
    else (w, false)

unfoldable pub notify_changed : Worker → Worker
notify_changed w = record w { published = w.published + 1 }

-- A free goroutine of the pool receives the head of the queue and enters process.
unfoldable pub take_next : Worker → Option (ℕ × Worker)
take_next w = elim w.queue [
  | [] ↦ none
  | id ∷ rest ↦
      if ltb w.busy w.concurrency
      then some
          (id, record w { queue = rest; busy = w.busy + 1; inflight = register id w.inflight })
      else none
]

-- How the run of a pipeline ends: an error is only logged, since the pipeline settled the row.
pub data Ending : Type 0 where
  returned : Ending
  failed : Ending
  panicked : String → Ending

-- handlePanic, where `fail` is wired to MarkDeploymentFinished; an error of it is only logged.
settle_panic : (now id : ℕ) → String → Db → Db
settle_panic now id panic db =
    elim (mark_deployment_finished now id DeploymentStatus.error
      (some (String.◌++◌ (String.◌++◌ "deploy aborted: internal panic (" panic) ")")) db) [
        | ok db' ↦ db'
        | err _ ↦ db
      ]

-- The end of process: the deferred functions, in their order.
unfoldable pub end_process : (now id : ℕ) → Ending → Worker × Db → Worker × Db
unfolding settle_panic notify_changed
end_process now id ending (w, db) = (
  notify_changed (record w { busy = w.busy - 1; inflight = deregister id w.inflight }),
  elim ending [ returned ↦ db | failed ↦ db | panicked r ↦ settle_panic now id r db ],
)
