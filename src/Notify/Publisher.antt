-- ===== src/Notify/Publisher.antt =====
-- `Publisher` of notify/msg_notify_center.go: a queue of fast events and its subscribers. A
-- `sync.Map` is the list of its entries in the order in which `Range` visits them. What subscribers
-- are called with is kept in `Deliveries`, latest first.
use pole.Prelude.{
  ℕ, Bool, true, false, ◌&&◌, ◌==◌, Option, none, some, List, [], ◌∷◌, Text, Outcome, returned,
  panicked, if◌then◌else◌,
}
use pole.Notify.Events.{Event, Subscriber, lt_int64, before_all, Channel, Sent, send}

pub record Publisher : Type 0 where
  pub queue : Channel
  pub topic : Text
  pub subscribers : List Subscriber
  pub started : Bool  -- `init` was done
  pub running : Bool  -- the goroutine of `openHandler` has not ended
  pub last_sequence : ℕ

pub record Deliveries : Type 0 where
  pub delivered : List (ℕ × Event)
  pub expired : List Event

unfoldable pub new_publisher : Text → ℕ → Publisher
new_publisher topic size = record {
  queue = record { capacity = size; items = []; closed = false };
  topic = topic;
  subscribers = [];
  started = false;
  running = false;
  last_sequence = before_all;
}

unfoldable pub start : Publisher → Publisher
start p = if p.started then p else record p { started = true; running = true }

unfoldable pub publish : Bool → Bool → Event → Publisher → Sent × Publisher
unfolding send
publish done first e p =
    let r : Sent × Channel = send done first e p.queue in (r.0, record p { queue = r.1 })

-- `subscribers.Store(s, member)`
unfoldable pub store : Subscriber → List Subscriber → List Subscriber
store s [] = s ∷ []
store s (t ∷ ts) = if t.id == s.id then s ∷ ts else t ∷ store s ts

-- `subscribers.Delete(s)`
unfoldable pub drop_subscriber : Subscriber → List Subscriber → List Subscriber
drop_subscriber s [] = []
drop_subscriber s (t ∷ ts) =
    let rest = drop_subscriber s ts in if t.id == s.id then rest else t ∷ rest

unfoldable pub add_subscriber : Subscriber → Publisher → Publisher
unfolding store
add_subscriber s p = record p { subscribers = store s p.subscribers }

unfoldable pub remove_subscriber : Subscriber → Publisher → Publisher
unfolding drop_subscriber
remove_subscriber s p = record p { subscribers = drop_subscriber s p.subscribers }

-- `close(p.queue)`
unfoldable pub shutdown : Publisher → Outcome Publisher
shutdown p =
    if p.queue.closed
    then panicked
    else returned (record p { queue = record p.queue { closed = true } })

-- `onExpire`, if it is registered.
abbrev pub expire : Bool → Event → Deliveries → Deliveries
expire true e d = record d { expired = e ∷ d.expired }
expire false e d = d

-- The loop of `notifySubscriber`, with a logger. `OnEvent` that panics makes the callback of `Range`
-- return false.
unfoldable pub notify_all : Bool → ℕ → ℕ → Event → List Subscriber → Deliveries → Deliveries
notify_all watched current last e [] d = d
notify_all watched current last e (s ∷ ss) d =
    elim (s.ignore_expire_event && lt_int64 current last) [
      | true ↦ notify_all watched current last e ss (expire watched e d)
      | false ↦ elim (s.fails_on e) [
        | true ↦ record d { delivered = (s.id, e) ∷ d.delivered }
        | false ↦
            notify_all watched current last e ss (record d { delivered = (s.id, e) ∷ d.delivered })
      ]
    ]

-- `float_max` is int64(math.Max(float64(a), float64(b))).
module _ (float_max : ℕ → ℕ → ℕ) where
  -- `notifySubscriber`, by the sequence number of the event; an event without one is no `FastEvent`.
  abbrev pub notify_at :
      Option ℕ → Bool → Event → Publisher → Deliveries → Outcome Publisher × Deliveries
  notify_at none watched e p d = (panicked, d)
  notify_at (some current) watched e p d = (
    returned (record p { last_sequence = float_max current p.last_sequence }),
    notify_all watched current p.last_sequence e p.subscribers d,
  )

  unfoldable pub notify_subscriber :
      Bool → Event → Publisher → Deliveries → Outcome Publisher × Deliveries
  notify_subscriber watched e p d = notify_at e.sequence watched e p d

  -- A panic ends the goroutine.
  abbrev pub end_round : Publisher → Outcome Publisher × Deliveries → Publisher × Deliveries
  end_round p (returned p', d) = (p', d)
  end_round p (panicked, d) = (record p { running = false }, d)

  -- One round of `openHandler` with the event `e`, taken from the queue. Without a logger the first
  -- thing it does is a panic.
  unfoldable pub handle : Bool → Bool → Event → Publisher → Deliveries → Publisher × Deliveries
  unfolding notify_subscriber
  handle has_log watched e p d = elim has_log [
    | false ↦ end_round p (panicked, d)
    | true ↦ end_round p (notify_subscriber watched e p d)
  ]
