-- ===== src/Ws/Tests.antt =====
-- Two connections to topic 3 of which one is cancelled, and a third to topic 4.
use vac.Prelude.{List, count, ◌≡◌, ◌+◌, if◌then◌else◌, ◌∷◌, [], refl}
use vac.Ws.{
  published, Event, Event, new_hub, run_events, has_subscribers, on_unsub, subscribed, on_sub,
  cancelled, received,
}
use vac.Ws.Balance.{run_events-IsBalanced, is_start, is_stop}

abbrev session : List Event
session =
    subscribed 3 1
    ∷ subscribed 4 2
    ∷ subscribed 3 5
    ∷ published 3 9
    ∷ cancelled 3 1
    ∷ received 3 5
    ∷ cancelled 4 2
    ∷ []

called : (run_events session new_hub).calls ≡ on_unsub 4 ∷ on_sub 4 ∷ on_sub 3 ∷ []
unfolding run_events
called = refl

run_events-IsBalanced_example :
    count (is_start 4) (run_events session new_hub).calls
    ≡ count (is_stop 4) (run_events session new_hub).calls
      + (if has_subscribers 4 (run_events session new_hub) then 1 else 0)
run_events-IsBalanced_example = run_events-IsBalanced 4 session
