-- ===== src/Deploy/Worker/Tests.antt =====
-- The pool over a few events, with more submitted than the queue has room for.
use vac.Deploy.Worker.{new_worker}
use vac.Prelude.{List, ◌++◌, ◌≡◌, ◌∷◌, []}
use vac.Deploy.Worker.Pool.{
  run, all_started, all_accepted, IsBounded, Event, run-IsBounded, submit, run_fifo, stop, done,
}

abbrev events : List Event
events =
    submit 1
    ∷ submit 2
    ∷ submit 3
    ∷ Event.take
    ∷ Event.take
    ∷ stop 1
    ∷ submit 4
    ∷ done 1
    ∷ Event.take
    ∷ []

run_fifo_example :
    all_started events (new_worker 2 1) ++ (run events (new_worker 2 1)).queue
    ≡ (new_worker 2 1).queue ++ all_accepted events (new_worker 2 1)
run_fifo_example = run_fifo events (new_worker 2 1)

run-IsBounded_example : IsBounded (run events (new_worker 2 1))
run-IsBounded_example = run-IsBounded 2 1 events
