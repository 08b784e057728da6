-- ===== src/Notify/Center.antt =====
-- `msgPublisherCenter` of notify/msg_notify_center.go, with the shared publisher of slow events. The
-- sets of the shared publisher's listeners are those of the rpc library, a parameter. A subscriber
-- that is both single and multi counts as single; the keys of `Publishers` are texts, so that `Load`
-- of an event finds nothing.
pub mod Silent
pub mod Calls
use pole.Prelude.{
  ℕ, Bool, true, false, ◌&&◌, Option, none, some, List, [], ◌∷◌, Text, Dict, lookup, insert,
  Outcome, returned, panicked, if◌then◌else◌,
}
use pole.Notify.Events.{
  Event, NotifyError, event_not_support, event_not_register, wrong_subscriber_type, no_publisher,
  Topics, single, multi, neither, Subscriber, lt_int64, Channel, Sent, send,
}
use pole.Notify.Publisher
use pole.Notify.Publisher.{
  Publisher, Deliveries, new_publisher, start, publish, add_subscriber, expire, handle,
}

pub record SyncSets : Type 1 where
  pub SyncSet : Type 0
  pub new_set : SyncSet
  pub add : Subscriber → SyncSet → SyncSet
  pub remove : Subscriber → SyncSet → SyncSet
  pub elements : SyncSet → List Subscriber

pub data Published : Type 0 where
  reached : Sent → Published
  refused : NotifyError → Published

-- `if ringBufferSize <= 32 { ringBufferSize = 128 }`
unfoldable pub buffer_size : ℕ → ℕ
buffer_size n = if lt_int64 32 n then n else 128

module _ (sets : SyncSets) where
  open sets use {SyncSet, new_set, add, remove, elements}

  pub record Center : Type 0 where
    pub share_queue : Channel
    pub share_running : Bool
    pub share_owned : Bool  -- the shared publisher has an owner
    pub listeners : Dict SyncSet
    pub publishers : Dict Publisher
    pub has_log : Bool
    pub watched : Bool
    pub deliveries : Deliveries

  -- `init`, which sets no logger, and no owner of the shared publisher; `size` is the size of the shared queue.
  unfoldable pub init_center : ℕ → Center
  init_center size = record {
    share_queue = record { capacity = size; items = []; closed = false };
    share_running = true;
    share_owned = false;
    listeners = [];
    publishers = [];
    has_log = false;
    watched = false;
    deliveries = record { delivered = []; expired = [] };
  }

  abbrev pub set_publisher : Text → Publisher → Center → Center
  set_publisher topic p c = record c { publishers = insert topic p c.publishers }

  -- `LoadOrStore`, and what it finds.
  abbrev pub or_new : Text → ℕ → Option Publisher → Publisher
  or_new topic size none = new_publisher topic size
  or_new topic size (some p) = p

  abbrev pub register_kind : Option ℕ → Event → ℕ → Center → Center
  register_kind none e size c = c
  register_kind (some _) e size c =
      set_publisher e.name (start (or_new e.name (buffer_size size) (lookup e.name c.publishers))) c

  unfoldable pub register_publisher : Option Event → ℕ → Center → Option NotifyError × Center
  unfolding start new_publisher buffer_size
  register_publisher none size c = (some event_not_support, c)
  register_publisher (some e) size c = (none, register_kind e.sequence e size c)

  abbrev pub publish_found : Bool → Bool → Event → Option Publisher → Center → Published × Center
  publish_found done first e none c = (refused event_not_register, c)
  publish_found done first e (some p) c =
      let r : Sent × Publisher = publish done first e p in (reached r.0, set_publisher e.name r.1 c)

  abbrev pub publish_kind : Option ℕ → Bool → Bool → Event → Center → Published × Center
  publish_kind (some _) done first e c = publish_found done first e (lookup e.name c.publishers) c
  publish_kind none done first e c =
      let r : Sent × Channel = send done first e c.share_queue in
      (reached r.0, record c { share_queue = r.1 })

  -- `PublishEventWait`; `done` and `first` are those of `send`.
  unfoldable pub publish_event_wait : Bool → Bool → Option Event → Center → Published × Center
  unfolding publish send
  publish_event_wait done first none c = (refused event_not_support, c)
  publish_event_wait done first (some e) c = publish_kind e.sequence done first e c

  -- `PublishEvent`, with a context that is never done.
  unfoldable pub publish_event : Option Event → Center → Published × Center
  unfolding publish_event_wait
  publish_event e c = publish_event_wait false true e c

  abbrev pub or_empty : Option SyncSet → SyncSet
  or_empty none = new_set
  or_empty (some set) = set

  -- `LoadOrStore` of a set of listeners, and `Add`.
  abbrev pub listen : Subscriber → Text → Center → Center
  listen s topic c = record c {
    listeners = insert topic (add s (or_empty (lookup topic c.listeners))) c.listeners;
  }

  -- `SharePublisher.AddSubscriber` for several topics; every event that is not nil is a `SlowEvent`.
  unfoldable pub listen_all : Subscriber → List (Option Event) → Center → Center
  listen_all s [] c = c
  listen_all s (none ∷ topics) c = listen_all s topics c
  listen_all s (some e ∷ topics) c = listen_all s topics (listen s e.name c)

  abbrev pub subscribe_found :
      Subscriber → Event → Option Publisher → Center → Option NotifyError × Center
  subscribe_found s e none c = (some (no_publisher e), c)
  subscribe_found s e (some p) c = (none, set_publisher e.name (add_subscriber s p) c)

  abbrev pub subscribe_kind : Option ℕ → Subscriber → Event → Center → Option NotifyError × Center
  subscribe_kind (some _) s e c = subscribe_found s e (lookup e.name c.publishers) c
  subscribe_kind none s e c = (none, listen s e.name c)

  -- The loop of `RegisterSubscriber` over several topics; slow events are passed over.
  abbrev pub subscribe_multi_kind :
      Option ℕ → Subscriber → Event → Center → Option NotifyError × Center
  subscribe_multi_kind (some _) s e c = subscribe_found s e (lookup e.name c.publishers) c
  subscribe_multi_kind none s e c = (none, c)

  unfoldable pub subscribe_each :
      Subscriber → List (Option Event) → Center → Option NotifyError × Center
  unfolding add_subscriber
  subscribe_each s [] c = (none, c)
  subscribe_each s (none ∷ topics) c = subscribe_each s topics c
  subscribe_each s (some e ∷ topics) c =
      let r : Option NotifyError × Center = subscribe_multi_kind e.sequence s e c in
      elim r.0 [ some err ↦ (some err, r.1) | none ↦ subscribe_each s topics r.1 ]

  abbrev pub subscribe_topics : Topics → Subscriber → Center → Option NotifyError × Center
  subscribe_topics (single none) s c = (some wrong_subscriber_type, c)
  subscribe_topics (single (some e)) s c = subscribe_kind e.sequence s e c
  subscribe_topics (multi topics) s c =
      let r : Option NotifyError × Center = subscribe_each s topics c in
      elim r.0 [ some err ↦ (some err, r.1) | none ↦ (none, listen_all s topics r.1) ]
  subscribe_topics neither s c = (some wrong_subscriber_type, c)

  unfoldable pub register_subscriber : Subscriber → Center → Option NotifyError × Center
  unfolding subscribe_each listen_all add_subscriber
  register_subscriber s c = subscribe_topics s.topics s c

  abbrev pub Done : Type 0
  Done = Outcome (Option NotifyError) × Center

  -- `SharePublisher.RemoveSubscriber` for one topic: a missing set is a panic.
  abbrev pub unlisten : Subscriber → Text → Option SyncSet → Center → Done
  unlisten s topic none c = (panicked, c)
  unlisten s topic (some set) c =
      (returned none, record c { listeners = insert topic (remove s set) c.listeners })

  -- The same for several topics: a missing set is passed over, and a nil event is a panic.
  unfoldable pub unlisten_all : Subscriber → List (Option Event) → Center → Done
  unlisten_all s [] c = (returned none, c)
  unlisten_all s (none ∷ topics) c = (panicked, c)
  unlisten_all s (some e ∷ topics) c = elim (lookup e.name c.listeners) [
    | none ↦ unlisten_all s topics c
    | some set ↦
        unlisten_all s topics (record c { listeners = insert e.name (remove s set) c.listeners })
  ]

  abbrev pub deregister_topics : Topics → Subscriber → Center → Done
  deregister_topics (single none) s c = (panicked, c)
  deregister_topics (single (some e)) s c = unlisten s e.name (lookup e.name c.listeners) c
  deregister_topics (multi topics) s c = unlisten_all s topics c
  deregister_topics neither s c = (returned (some wrong_subscriber_type), c)

  -- `Publishers.Load(topic)` finds nothing, so no publisher loses the subscriber.
  unfoldable pub deregister_subscriber : Subscriber → Center → Done
  unfolding unlisten_all
  deregister_subscriber s c = deregister_topics s.topics s c

  -- `key.(*Publisher)` on the first key, which is a text.
  abbrev pub shutdown_rest : Dict Publisher → Center → Outcome (Unit {0}) × Center
  shutdown_rest [] c = (returned tt, c)
  shutdown_rest (_ ∷ _) c = (panicked, c)

  unfoldable pub shutdown : Center → Outcome (Unit {0}) × Center
  shutdown c =
      if c.share_queue.closed
      then (panicked, c)
      else shutdown_rest c.publishers
          (record c { share_queue = record c.share_queue { closed = true } })

  unfoldable pub register_on_expire : Center → Center
  register_on_expire c = record c { watched = true }

  -- The loop of `SharePublisher.notifySubscriber`; a panic of a listener ends it.
  unfoldable pub notify_listeners :
      Event → List Subscriber → Deliveries → Outcome (Unit {0}) × Deliveries
  notify_listeners e [] d = (returned tt, d)
  notify_listeners e (s ∷ ss) d =
      let d' : Deliveries = record d { delivered = (s.id, e) ∷ d.delivered } in
      let rest = notify_listeners e ss d' in
      elim (s.fails_on e) [ true ↦ (panicked, d') | false ↦ rest ]

  abbrev pub elements_of : Option SyncSet → List Subscriber
  elements_of none = []
  elements_of (some set) = elements set

  -- A panic ends the goroutine.
  abbrev pub end_slow : Outcome (Unit {0}) × Deliveries → Center → Center
  end_slow (returned _, d) c = record c { deliveries = d }
  end_slow (panicked, d) c = record c { deliveries = d; share_running = false }

  -- What the handler does with an event; from a closed queue it gets nil, whose name is a panic.
  abbrev pub notify_slow : Option Event → Center → Center
  notify_slow none c = record c { share_running = false }
  notify_slow (some e) c =
      end_slow (notify_listeners e (elements_of (lookup e.name c.listeners)) c.deliveries) c

  module _ (float_max : ℕ → ℕ → ℕ) where
    -- The handler of the publisher of `topic` takes an event from its queue.
    unfoldable pub take_event : Text → Event → List Event → Publisher → Center → Center
    unfolding handle
    take_event topic e rest p c =
        let taken : Publisher = record p { queue = record p.queue { items = rest } } in
        let r : Publisher × Deliveries =
          handle float_max c.has_log c.watched e taken c.deliveries in
        record c { publishers = insert topic r.0 c.publishers; deliveries = r.1 }

  -- The handler of the shared publisher takes an event, or sees the closed queue. Its first call is one
  -- of its owner's logger: without an owner, or without a logger, that is a panic, which ends it.
  unfoldable pub take_slow_event : Option Event → List Event → Center → Center
  unfolding notify_listeners
  take_slow_event e rest c =
      let taken : Center = record c { share_queue = record c.share_queue { items = rest } } in
      if c.share_owned && c.has_log
      then notify_slow e taken
      else record taken { share_running = false }
