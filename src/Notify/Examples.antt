-- ===== src/Notify/Examples.antt =====
-- The theorems on the event centre at concrete inputs; a set of listeners is a list.
use pole.Prelude.{
  ℕ, ◌≡◌, refl, str_eq, true, false, none, some, List, [], ◌∷◌, codes, lookup, panicked, ltb,
  if◌then◌else◌,
}
use pole.Notify.Events.{Event, Subscriber, single, signed, before_all, event_not_register, sent}
use pole.Notify.Publisher.{Publisher}
use pole.Notify.Center.{
  SyncSets, Center, init_center, reached, refused, register_publisher, publish_event, shutdown,
}
use pole.Notify.Center.Silent.{here, next, registers, nothing_delivered}
use pole.Notify.Center.Calls.{with_event, publish_event-register_publisher, shutdown_panics}

abbrev event : ℕ → Event
event n = record { name = codes "E"; sequence = some n; body = 0 }

abbrev plain : Subscriber
plain = record {
  id = 1;
  ignore_expire_event = false;
  topics = single (some (event 0));
  fails_on = λ e. false;
}

abbrev publisher : List Subscriber → Publisher
publisher ss = record {
  queue = record { capacity = 128; items = []; closed = false };
  topic = codes "E";
  subscribers = ss;
  started = true;
  running = true;
  last_sequence = before_all;
}

abbrev greater : ℕ → ℕ → ℕ
greater a b = if ltb (signed a) (signed b) then b else a

abbrev lists : SyncSets
lists = record {
  SyncSet = List Subscriber;
  new_set = [];
  add = λ s set. s ∷ set;
  remove = λ s set. [];
  elements = λ set. set;
}

abbrev started : Center lists
started = init_center lists 16

abbrev with_topic : Center lists
with_topic = (register_publisher lists (some (event 0)) 16 started).1

nothing_delivered_example :
    (with_topic.deliveries.delivered ≡ []) × (with_topic.deliveries.expired ≡ [])
nothing_delivered_example =
    nothing_delivered lists greater 16 with_topic (next here (registers (some (event 0)) 16 refl))

absent : lookup (codes "E") started.publishers ≡ none
unfolding init_center lookup
absent = refl

publish_event-register_publisher_example :
    (publish_event lists (some (event 7)) started ≡ (refused event_not_register, started))
    × ((publish_event lists
          (some (event 7))
          (register_publisher lists (some (event 7)) 16 started).1).0
        ≡ reached sent)
    × (lookup
          (codes "E")
          (publish_event lists
            (some (event 7))
            (register_publisher lists (some (event 7)) 16 started).1).1.publishers
        ≡ some (with_event lists (event 7) 16))
publish_event-register_publisher_example =
    publish_event-register_publisher lists (event 7) 7 16 started refl absent

abbrev one_topic : Center lists
one_topic = record started { publishers = (codes "E", publisher []) ∷ [] }

there : lookup (codes "E") one_topic.publishers ≡ some (publisher [])
unfolding lookup str_eq
there = refl

unheard : lookup (codes "E") one_topic.listeners ≡ none
unfolding init_center lookup
unheard = refl

live : one_topic.share_queue.closed ≡ false
unfolding init_center
live = refl

shutdown_panics_example :
    ((shutdown lists one_topic).0 ≡ panicked)
    × ((shutdown lists one_topic).1.share_queue.closed ≡ true)
    × ((shutdown lists one_topic).1.publishers ≡ one_topic.publishers)
shutdown_panics_example = shutdown_panics lists (codes "E") (publisher []) [] one_topic refl live
