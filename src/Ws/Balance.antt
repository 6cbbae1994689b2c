-- ===== src/Ws/Balance.antt =====
-- The callbacks of api/internal/ws/hub.go start and stop the producers of a topic.
use vac.Ws.{
  step, without, Event, published, Hub, Callback, Subscriber, on_sub, on_unsub, subscribe, publish,
  has_none, send_all, full, has_room, has_subscribers, receive, remove, run_events, take_frame,
  new_hub, subscribed, cancelled, received,
}
use vac.Prelude.{
  ℕ, Bool, count, ◌==◌, false, ◌≡◌, ◌+◌, if◌then◌else◌, Bool-cases, List, map, true, inr, arith,
  ◌∷◌, inl, [], ap, refl, ==_iff,
}

abbrev pub is_start : ℕ → Callback → Bool
is_start t (on_sub u) = u == t
is_start t (on_unsub u) = false

abbrev pub is_stop : ℕ → Callback → Bool
is_stop t (on_sub u) = false
is_stop t (on_unsub u) = u == t

-- A topic's producer was started once more than it was stopped where the topic has subscribers, and as
-- often where it has none.
abbrev pub IsBalanced : ℕ → Hub → Type 0
IsBalanced t h =
    count (is_start t) h.calls
    ≡ count (is_stop t) h.calls + (if has_none (h.topics t) then 0 else 1)

-- The subscribers of a topic are those that a frame reaches and those that it drops.
none-sent :
    (frame : ℕ) (subs : List Subscriber)
    → has_none subs ≡ true
    → has_none (send_all frame subs) ≡ true
none-sent frame [] h = refl
none-sent frame (s ∷ ss) h = absurd cc

none-full : (subs : List Subscriber) → has_none subs ≡ true → has_none (full subs) ≡ true
none-full [] h = refl
none-full (s ∷ ss) h = absurd cc

none-split :
    (frame : ℕ) (subs : List Subscriber)
    → has_none (send_all frame subs) ≡ true
    → has_none (full subs) ≡ true
    → has_none subs ≡ true
none-split frame [] h k = refl
none-split frame (s ∷ ss) h k = elim (Bool-cases (has_room s)) [
  | inl y ↦ absurd (ground (arith, y, h))
  | inr n ↦ absurd (ground (arith, n, k))
]

none-map :
    (f : Subscriber → Subscriber) (subs : List Subscriber) → has_none (map f subs) ≡ has_none subs
none-map f [] = refl
none-map f (s ∷ ss) = refl

IsBalanced-subscribe :
    (t topic id : ℕ) (h : Hub)
    → h.shut ≡ false
    → IsBalanced t h
    → IsBalanced t (subscribe topic id h)
unfolding subscribe
IsBalanced-subscribe t topic id h o b = elim (Bool-cases (topic == t)) [
  | inr n ↦ ground (arith, n, o, b)
  | inl y ↦ let same = ap h.topics ((==_iff topic t).0 y) in ground (arith, y, o, b, same)
]

IsBalanced-publish :
    (t topic frame : ℕ) (h : Hub) → IsBalanced t h → IsBalanced t (publish topic frame h)
unfolding publish
IsBalanced-publish t topic frame h b = elim (Bool-cases (topic == t)) [
  | inr n ↦ ground (arith, n, b)
  | inl y ↦
      let same = ap h.topics ((==_iff topic t).0 y) in
      ground (
        arith,
        y,
        b,
        same,
        none-sent frame (h.topics topic),
        none-full (h.topics topic),
        none-split frame (h.topics topic),
      )
]

none-without :
    (id : ℕ) (subs : List Subscriber) → has_none subs ≡ true → has_none (without id subs) ≡ true
none-without id [] h = refl
none-without id (s ∷ ss) h = absurd cc

IsBalanced-remove : (t topic id : ℕ) (h : Hub) → IsBalanced t h → IsBalanced t (remove topic id h)
unfolding remove
IsBalanced-remove t topic id h b = elim (Bool-cases (topic == t)) [
  | inr n ↦ ground (arith, n, b)
  | inl y ↦
      let same = ap h.topics ((==_iff topic t).0 y) in
      ground (arith, y, b, same, none-without id (h.topics topic))
]

IsBalanced-receive : (t topic id : ℕ) (h : Hub) → IsBalanced t h → IsBalanced t (receive topic id h)
unfolding receive
IsBalanced-receive t topic id h b = elim (Bool-cases (topic == t)) [
  | inr n ↦ ground (arith, n, b)
  | inl y ↦
      let same = ap h.topics ((==_iff topic t).0 y) in
      ground (arith, y, b, same, none-map (take_frame id) (h.topics topic))
]

-- A hub that is not shut stays so through every event but Close.
abbrev IsFair : ℕ → Hub → Type 0
IsFair t h = (h.shut ≡ false) × IsBalanced t h

IsFair-step : (t : ℕ) (e : Event) (h : Hub) → IsFair t h → IsFair t (step e h)
unfolding subscribe publish remove receive
IsFair-step t (subscribed topic id) h (o, b) =
    (ground (arith, o), IsBalanced-subscribe t topic id h o b)
IsFair-step t (published topic frame) h (o, b) = (o, IsBalanced-publish t topic frame h b)
IsFair-step t (cancelled topic id) h (o, b) = (ground (arith, o), IsBalanced-remove t topic id h b)
IsFair-step t (received topic id) h (o, b) = (o, IsBalanced-receive t topic id h b)

IsFair-run_events : (t : ℕ) (es : List Event) (h : Hub) → IsFair t h → IsFair t (run_events es h)
unfolding run_events
IsFair-run_events t [] h f = f
IsFair-run_events t (e ∷ es) h f = IsFair-run_events t es (step e h) (IsFair-step t e h f)

-- After any subscriptions, frames, cancellations and reads on a new hub that is not closed, the callbacks
-- started a topic's producer once more than they stopped it where the topic has subscribers, and as often
-- as they stopped it where it has none.
pub run_events-IsBalanced :
    (t : ℕ) (es : List Event)
    → count (is_start t) (run_events es new_hub).calls
      ≡ count (is_stop t) (run_events es new_hub).calls
        + (if has_subscribers t (run_events es new_hub) then 1 else 0)
unfolding has_subscribers
run_events-IsBalanced t es =
    let b = (IsFair-run_events t es new_hub (refl, refl)).1 in ground (arith, b)
