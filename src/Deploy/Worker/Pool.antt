-- ===== src/Deploy/Worker/Pool.antt =====
-- The pool of api/internal/deploy/worker.go over any sequence of events: handlers that enqueue and
-- cancel, goroutines that take work and finish it.
use vac.Deploy.Schema.{Db}
use vac.Prelude.{
  ◌++◌, List, Option, length, ℕ, if◌then◌else◌, ◌≡◌, ◌≤◌, some, ◌∷◌, ltb, [], none, ◌==◌, arith,
  sym, length-append, ◌∙◌, ap,
}
use mathlib.Core.List.{append-nil, append_assoc}
use vac.Deploy.Worker.{Worker, enqueue, take_next, cancel, end_process, new_worker, returned}

pub data Event : Type 0 where
  submit : ℕ → Event
  take : Event
  stop : ℕ → Event
  done : ℕ → Event

abbrev or_same : Option Worker → Worker → Worker
or_same none w = w
or_same (some w') w = w'

-- The worker after an event; an event that is not possible changes nothing.
unfoldable pub step : Event → Worker → Worker
step (submit id) w = or_same (enqueue id w) w
step take w = elim (take_next w) [ none ↦ w | some (id, w') ↦ w' ]
step (stop id) w = (cancel id w).0
step (done id) w = if w.busy == 0 then w else (end_process 0 id returned (w, no_rows)).0
  where
    no_rows : Db
    no_rows = record { apps = []; rows = [] }

-- What an event puts into the queue, and what it takes out.
accepted : Event → Worker → List ℕ
accepted (submit id) w = if ltb (length w.queue) w.capacity then id ∷ [] else []
accepted _ w = []

started : Event → Worker → List ℕ
started take w = elim (take_next w) [ none ↦ [] | some (id, w') ↦ id ∷ [] ]
started _ w = []

unfoldable pub run : List Event → Worker → Worker
unfolding step
run [] w = w
run (e ∷ es) w = run es (step e w)

unfoldable pub all_accepted : List Event → Worker → List ℕ
unfolding accepted step
all_accepted [] w = []
all_accepted (e ∷ es) w = accepted e w ++ all_accepted es (step e w)

unfoldable pub all_started : List Event → Worker → List ℕ
unfolding started step
all_started [] w = []
all_started (e ∷ es) w = started e w ++ all_started es (step e w)

step_fifo : (e : Event) (w : Worker) → started e w ++ (step e w).queue ≡ w.queue ++ accepted e w
unfolding step started accepted enqueue take_next cancel end_process
step_fifo (submit id) w = ground (arith, append-nil w.queue)
step_fifo take w = ground (arith, append-nil w.queue)
step_fifo (stop id) w = ground (arith, append-nil w.queue)
step_fifo (done id) w = ground (arith, append-nil w.queue)

-- Deployments are started in the order in which Enqueue accepted them, none lost and none twice: at
-- any time what was started, followed by what waits, is the first queue followed by what was accepted.
pub run_fifo :
    (es : List Event) (w : Worker)
    → all_started es w ++ (run es w).queue ≡ w.queue ++ all_accepted es w
unfolding run all_accepted all_started
run_fifo [] w = sym (append-nil w.queue)
run_fifo (e ∷ es) w =
    let later = run_fifo es (step e w) in
    append_assoc (started e w) (all_started es (step e w)) _
    ∙ ap (λ l. started e w ++ l) later
    ∙ sym (append_assoc (started e w) (step e w).queue _)
    ∙ ap (λ l. l ++ all_accepted es (step e w)) (step_fifo e w)
    ∙ append_assoc w.queue (accepted e w) _

pub record IsBounded (w : Worker) : Type 0 where
  pub queued : length w.queue ≤ w.capacity
  pub running : w.busy ≤ w.concurrency
  pub some_run : 1 ≤ w.concurrency
  pub few_run : w.concurrency ≤ 8
  pub some_wait : 1 ≤ w.capacity

step-IsBounded : (e : Event) (w : Worker) → IsBounded w → IsBounded (step e w)
unfolding step enqueue take_next cancel end_process
step-IsBounded (submit id) w b = ground (arith, length-append w.queue (id ∷ []))
step-IsBounded take w b = ground arith
step-IsBounded (stop id) w b = ground arith
step-IsBounded (done id) w b = ground arith

run-IsBounded_from : (es : List Event) (w : Worker) → IsBounded w → IsBounded (run es w)
unfolding run
run-IsBounded_from [] w b = b
run-IsBounded_from (e ∷ es) w b = run-IsBounded_from es (step e w) (step-IsBounded e w b)

-- From a new worker on, whatever the settings and the events: the queue never outgrows its
-- capacity, which is at least one, and at most 8 deployments run at once, where at least one can.
pub run-IsBounded :
    (capacity concurrency : ℕ) (es : List Event)
    → IsBounded (run es (new_worker capacity concurrency))
unfolding new_worker
run-IsBounded capacity concurrency es = run-IsBounded_from es _ (ground arith)
