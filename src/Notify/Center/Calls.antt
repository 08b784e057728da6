-- ===== src/Notify/Center/Calls.antt =====
-- What single calls of the event centre do.
use pole.Prelude.{
  ℕ, ◌<◌, ◌≡◌, refl, ap, ◌∙◌, true, false, Option, none, some, [], ◌∷◌, arith, Text, Dict, lookup,
  insert, panicked,
}
use pole.Prelude.Maps.{lookup-insert_self}
use pole.Notify.Events.{Event, event_not_register, Subscriber, single, sent, send}
use pole.Notify.Publisher.{Publisher, new_publisher, start, publish, add_subscriber}
use pole.Notify.Center.{
  SyncSets, Center, reached, refused, or_new, buffer_size, set_publisher, register_kind,
  register_publisher, publish_kind, publish_found, publish_event_wait, publish_event,
  subscribe_found, subscribe_kind, subscribe_topics, register_subscriber, unlisten,
  deregister_topics, deregister_subscriber, shutdown,
}

module _ (sets : SyncSets) where
  published :
      (e : Event) (n : ℕ) (p : Option Publisher) (c : Center sets)
      → e.sequence ≡ some n
      → lookup e.name c.publishers ≡ p
      → publish_event sets (some e) c ≡ publish_found sets false true e p c
  unfolding publish_event publish_event_wait
  published e n p c fast found =
      ap (λ o. publish_kind sets o false true e c) fast
      ∙ ap (λ q. publish_found sets false true e q c) found

  registered :
      (e : Event) (n size : ℕ) (c : Center sets)
      → e.sequence ≡ some n
      → lookup e.name c.publishers ≡ none
      → register_publisher sets (some e) size c
        ≡ (none, set_publisher sets e.name (start (new_publisher e.name (buffer_size size))) c)
  unfolding register_publisher
  registered e n size c fast absent =
      ap (λ o. (none, register_kind sets o e size c)) fast
      ∙ ap
          (λ p.
            (none, set_publisher sets e.name (start (or_new sets e.name (buffer_size size) p)) c))
          absent

  -- The publisher that `PublishEvent` leaves: the event is the one in its queue.
  abbrev pub with_event : Event → ℕ → Publisher
  with_event e size = record (new_publisher e.name (buffer_size size)) {
    queue = record { capacity = buffer_size size; items = e ∷ []; closed = false };
    started = true;
    running = true;
  }

  buffer_size-pos : (size : ℕ) → 0 < buffer_size size
  unfolding buffer_size
  buffer_size-pos size = ground arith

  first_sent :
      (e : Event) (size : ℕ)
      → publish false true e (start (new_publisher e.name (buffer_size size)))
        ≡ (sent, with_event e size)
  unfolding publish send start new_publisher
  first_sent e size = ground (arith, buffer_size-pos size)

  -- Before a topic is registered a fast event of it is refused; after its registration, with any buffer
  -- size, the first is accepted at once, is the one event in the queue, and the handler runs.
  pub publish_event-register_publisher :
      (e : Event) (n size : ℕ) (c : Center sets)
      → e.sequence ≡ some n
      → lookup e.name c.publishers ≡ none
      → (publish_event sets (some e) c ≡ (refused event_not_register, c))
        × ((publish_event sets (some e) (register_publisher sets (some e) size c).1).0
            ≡ reached sent)
        × (lookup e.name
              (publish_event sets (some e) (register_publisher sets (some e) size c).1).1.publishers
            ≡ some (with_event e size))
  publish_event-register_publisher e n size c fast absent =
      let p : Publisher = start (new_publisher e.name (buffer_size size)) in
      let r = ap (λ t. t.1) (registered e n size c fast absent) in
      let go =
        published e n (some p) (set_publisher sets e.name p c) fast
          (lookup-insert_self e.name p c.publishers) in
      (
        published e n none c fast absent,
        rw (r, go) (ap (λ t. reached t.0) (first_sent e size)),
        rw (r, go)
            (lookup-insert_self e.name (publish false true e p).1 (insert e.name p c.publishers)
              ∙ ap (λ t. some t.1) (first_sent e size)),
      )

  -- A subscriber that was registered for a fast event with a publisher, where no listener has a topic of
  -- that name: deregistering it panics and removes nothing.
  pub deregister-register_subscriber :
      (s : Subscriber) (e : Event) (n : ℕ) (p : Publisher) (c : Center sets)
      → s.topics ≡ single (some e)
      → e.sequence ≡ some n
      → lookup e.name c.publishers ≡ some p
      → lookup e.name c.listeners ≡ none
      → (register_subscriber sets s c ≡ (none, set_publisher sets e.name (add_subscriber s p) c))
        × (deregister_subscriber sets s (register_subscriber sets s c).1
            ≡ (panicked, set_publisher sets e.name (add_subscriber s p) c))
  unfolding register_subscriber deregister_subscriber
  deregister-register_subscriber s e n p c topics fast found unheard =
      let done : register_subscriber sets s c
          ≡ (none, set_publisher sets e.name (add_subscriber s p) c) =
        ap (λ t. subscribe_topics sets t s c) topics
        ∙ ap (λ o. subscribe_kind sets o s e c) fast
        ∙ ap (λ q. subscribe_found sets s e q c) found in
      let after : Center sets = set_publisher sets e.name (add_subscriber s p) c in
      (
        done,
        ap (λ r. deregister_subscriber sets s r.1) done
            ∙ ap (λ t. deregister_topics sets t s after) topics
            ∙ ap (λ o. unlisten sets s e.name o after) unheard,
      )

  -- With a publisher of a fast event registered, `Shutdown` panics: the shared queue is closed by then,
  -- and no publisher's is.
  pub shutdown_panics :
      (topic : Text) (p : Publisher) (rest : Dict Publisher) (c : Center sets)
      → c.publishers ≡ (topic, p) ∷ rest
      → c.share_queue.closed ≡ false
      → ((shutdown sets c).0 ≡ panicked)
        × ((shutdown sets c).1.share_queue.closed ≡ true)
        × ((shutdown sets c).1.publishers ≡ c.publishers)
  unfolding shutdown
  shutdown_panics topic p rest c one live = rw (live, one, shutdown) (refl, refl, refl)
