-- ===== src/Ws.antt =====
-- api/internal/ws/hub.go: the hub of subscribers. The map of topics is a function, whose value at a missing
-- key is the empty list; a subscriber that is in it has an open channel. The order of a set of subscribers is that in
-- which they joined. Every method runs under the hub's lock up to its callback, and is one step here.
pub mod Balance
mod Tests
use vac.Prelude.{
  ℕ, List, Bool, ◌==◌, [], if◌then◌else◌, keep, ltb, map, not, true, ◌∷◌, ◌++◌, any, drop, false,
  length, ◌&&◌,
}

-- A subscriber, by a number, and the frames in its channel, the oldest first.
pub record Subscriber : Type 0 where
  pub id : ℕ
  pub buffer : List ℕ

pub data Callback : Type 0 where
  on_sub : ℕ → Callback
  on_unsub : ℕ → Callback

-- `closed` lists the channels that the hub closed, `calls` the callbacks, the latest first.
pub record Hub : Type 0 where
  pub topics : ℕ → List Subscriber
  pub shut : Bool
  pub closed : List ℕ
  pub calls : List Callback

abbrev pub new_hub : Hub
new_hub = record { topics = λ t. []; shut = false; closed = []; calls = [] }

abbrev pub default_buffer : ℕ
default_buffer = 256

abbrev pub at_topic : ℕ → List Subscriber → (ℕ → List Subscriber) → ℕ → List Subscriber
at_topic topic subs topics t = if topic == t then subs else topics t

abbrev pub has_none : List Subscriber → Bool
has_none [] = true
has_none (s ∷ ss) = false

abbrev pub is_subscriber : ℕ → Subscriber → Bool
is_subscriber id s = s.id == id

unfoldable pub subscribe : (topic id : ℕ) → Hub → Hub
subscribe topic id h = if h.shut then record h { closed = id ∷ h.closed } else record h {
  topics = at_topic topic (record { id = id; buffer = [] } ∷ h.topics topic) h.topics;
  calls = if has_none (h.topics topic) then on_sub topic ∷ h.calls else h.calls;
}

abbrev pub has_room : Subscriber → Bool
has_room s = ltb (length s.buffer) default_buffer

abbrev pub sent : ℕ → Subscriber → Subscriber
sent frame s = record s { buffer = s.buffer ++ (frame ∷ []) }

-- A send that finds the channel full drops the subscriber.
abbrev pub send_all : ℕ → List Subscriber → List Subscriber
send_all frame subs = map (sent frame) (keep has_room subs)

abbrev pub full : List Subscriber → List Subscriber
full subs = keep (λ s. not (has_room s)) subs

unfoldable pub publish : (topic frame : ℕ) → Hub → Hub
publish topic frame h =
    let subs = h.topics topic in
    let rest = send_all frame subs in
    let dropped = full subs in
    record h {
      topics = at_topic topic rest h.topics;
      closed = map (λ s. s.id) dropped ++ h.closed;
      calls = if not (has_none dropped) && has_none rest then on_unsub topic ∷ h.calls else h.calls;
    }

abbrev pub without : ℕ → List Subscriber → List Subscriber
without id subs = keep (λ s. not (is_subscriber id s)) subs

-- The cancel function of a subscription.
unfoldable pub remove : (topic id : ℕ) → Hub → Hub
remove topic id h =
    let subs = h.topics topic in
    let rest = without id subs in
    if has_none subs then h else record h {
      topics = at_topic topic rest h.topics;
      closed = if any (is_subscriber id) subs then id ∷ h.closed else h.closed;
      calls = if has_none rest then on_unsub topic ∷ h.calls else h.calls;
    }

-- Close takes every topic; `topics_of` lists those that have subscribers.
abbrev pub ids_of : List ℕ → Hub → List ℕ
ids_of [] h = []
ids_of (t ∷ ts) h = map (λ s. s.id) (h.topics t) ++ ids_of ts h

unfoldable pub close : (topics_of : List ℕ) → Hub → Hub
close topics_of h = record h {
  shut = true;
  closed = ids_of topics_of h ++ h.closed;
  topics = λ t. [];
}

unfoldable pub has_subscribers : ℕ → Hub → Bool
has_subscribers topic h = not (has_none (h.topics topic))

abbrev pub take_frame : ℕ → Subscriber → Subscriber
take_frame id s = if is_subscriber id s then record s { buffer = drop 1 s.buffer } else s

-- A connection reads a frame of its channel.
unfoldable pub receive : (topic id : ℕ) → Hub → Hub
receive topic id h = record h {
  topics = at_topic topic (map (take_frame id) (h.topics topic)) h.topics;
}

pub data Event : Type 0 where
  subscribed : (topic id : ℕ) → Event
  published : (topic frame : ℕ) → Event
  cancelled : (topic id : ℕ) → Event
  received : (topic id : ℕ) → Event

abbrev pub step : Event → Hub → Hub
step (subscribed topic id) h = subscribe topic id h
step (published topic frame) h = publish topic frame h
step (cancelled topic id) h = remove topic id h
step (received topic id) h = receive topic id h

unfoldable pub run_events : List Event → Hub → Hub
unfolding subscribe publish remove receive
run_events [] h = h
run_events (e ∷ es) h = run_events es (step e h)
