-- ===== src/Notify/Center/Silent.antt =====
-- What the event centre does from the start of the program on.
use pole.Prelude.{
  ℕ, ◌≡◌, refl, ap, ◌∙◌, Bool, true, false, ◌&&◌, arith, if◌then◌else◌, inl, inr, Option, none,
  some, List, [], ◌∷◌, Text, Dict, lookup, insert,
}
use pole.Prelude.Tests.{Bool-cases, Option-cases}
use pole.Notify.Events.{Event, NotifyError, Subscriber, Topics, single, multi, neither}
use pole.Notify.Publisher.{Publisher, handle}
use pole.Notify.Center.{
  SyncSets, Center, init_center, register_kind, register_publisher, publish_kind,
  publish_event_wait, publish_found, listen, listen_all, subscribe_found, subscribe_kind,
  subscribe_multi_kind, subscribe_topics, unlisten, deregister_topics, subscribe_each,
  register_subscriber, unlisten_all, deregister_subscriber, shutdown_rest, shutdown,
  register_on_expire, take_event, notify_slow, take_slow_event,
}

module _ (sets : SyncSets) (float_max : ℕ → ℕ → ℕ) where
  -- What may happen: the calls of the package, and a handler that takes an event.
  pub data Step (s t : Center sets) : Type 0 where
    registers : (e : Option Event) (size : ℕ) → t ≡ (register_publisher sets e size s).1 → Step s t
    publishes :
        (done first : Bool) (e : Option Event)
        → t ≡ (publish_event_wait sets done first e s).1
        → Step s t
    subscribes : (x : Subscriber) → t ≡ (register_subscriber sets x s).1 → Step s t
    deregisters : (x : Subscriber) → t ≡ (deregister_subscriber sets x s).1 → Step s t
    shuts : t ≡ (shutdown sets s).1 → Step s t
    watches : t ≡ register_on_expire sets s → Step s t
    handles :
        (topic : Text) (p : Publisher) (e : Event) (rest : List Event)
        → lookup topic s.publishers ≡ some p
        → p.running ≡ true
        → p.queue.items ≡ e ∷ rest
        → t ≡ take_event sets float_max topic e rest p s
        → Step s t
    handles_slow :
        (e : Event) (rest : List Event)
        → s.share_running ≡ true
        → s.share_queue.items ≡ e ∷ rest
        → t ≡ take_slow_event sets (some e) rest s
        → Step s t
    handles_closed :
        s.share_running ≡ true
        → s.share_queue.items ≡ []
        → s.share_queue.closed ≡ true
        → t ≡ take_slow_event sets none [] s
        → Step s t

  pub data Reach (s : Center sets) : Center sets → Type 0 where
    here : Reach s s
    next : {t u : Center sets} → Reach s t → Step t u → Reach s u

  -- A call leaves the logger and what was delivered alone.
  abbrev Keeps : Center sets → Center sets → Type 0
  Keeps c c' = (c'.has_log ≡ c.has_log) × (c'.deliveries ≡ c.deliveries)

  register_kind-Keeps :
      (o : Option ℕ) (e : Event) (size : ℕ) (c : Center sets)
      → Keeps c (register_kind sets o e size c)
  register_kind-Keeps none e size c = (refl, refl)
  register_kind-Keeps (some _) e size c = (refl, refl)

  register-Keeps :
      (e : Option Event) (size : ℕ) (c : Center sets) → Keeps c (register_publisher sets e size c).1
  unfolding register_publisher
  register-Keeps none size c = (refl, refl)
  register-Keeps (some e) size c = register_kind-Keeps e.sequence e size c

  publish_found-Keeps :
      (done first : Bool) (e : Event) (p : Option Publisher) (c : Center sets)
      → Keeps c (publish_found sets done first e p c).1
  publish_found-Keeps done first e none c = (refl, refl)
  publish_found-Keeps done first e (some p) c = (refl, refl)

  publish_kind-Keeps :
      (o : Option ℕ) (done first : Bool) (e : Event) (c : Center sets)
      → Keeps c (publish_kind sets o done first e c).1
  publish_kind-Keeps none done first e c = (refl, refl)
  publish_kind-Keeps (some _) done first e c =
      publish_found-Keeps done first e (lookup e.name c.publishers) c

  publish-Keeps :
      (done first : Bool) (e : Option Event) (c : Center sets)
      → Keeps c (publish_event_wait sets done first e c).1
  unfolding publish_event_wait
  publish-Keeps done first none c = (refl, refl)
  publish-Keeps done first (some e) c = publish_kind-Keeps e.sequence done first e c

  Keeps-trans : (a b c : Center sets) → Keeps a b → Keeps b c → Keeps a c
  Keeps-trans a b c h k = (k.0 ∙ h.0, k.1 ∙ h.1)

  subscribe_found-Keeps :
      (x : Subscriber) (e : Event) (p : Option Publisher) (c : Center sets)
      → Keeps c (subscribe_found sets x e p c).1
  subscribe_found-Keeps x e none c = (refl, refl)
  subscribe_found-Keeps x e (some p) c = (refl, refl)

  subscribe_kind-Keeps :
      (o : Option ℕ) (x : Subscriber) (e : Event) (c : Center sets)
      → Keeps c (subscribe_kind sets o x e c).1
  subscribe_kind-Keeps none x e c = (refl, refl)
  subscribe_kind-Keeps (some _) x e c = subscribe_found-Keeps x e (lookup e.name c.publishers) c

  multi_kind-Keeps :
      (o : Option ℕ) (x : Subscriber) (e : Event) (c : Center sets)
      → Keeps c (subscribe_multi_kind sets o x e c).1
  multi_kind-Keeps none x e c = (refl, refl)
  multi_kind-Keeps (some _) x e c = subscribe_found-Keeps x e (lookup e.name c.publishers) c

  subscribe_each-Keeps :
      (x : Subscriber) (topics : List (Option Event)) (c : Center sets)
      → Keeps c (subscribe_each sets x topics c).1
  unfolding subscribe_each
  subscribe_each-Keeps x [] c = (refl, refl)
  subscribe_each-Keeps x (none ∷ topics) c = subscribe_each-Keeps x topics c
  subscribe_each-Keeps x (some e ∷ topics) c =
      let r : Option NotifyError × Center sets = subscribe_multi_kind sets e.sequence x e c in
      let one = multi_kind-Keeps e.sequence x e c in
      elim (Option-cases r.0) [
        | inl more ↦
            rw (more, subscribe_each)
              (Keeps-trans c r.1 (subscribe_each sets x topics r.1).1 one
                (subscribe_each-Keeps x topics r.1))
        | inr (err, stop) ↦ rw (stop, subscribe_each) one
      ]

  listen_all-Keeps :
      (x : Subscriber) (topics : List (Option Event)) (c : Center sets)
      → Keeps c (listen_all sets x topics c)
  unfolding listen_all
  listen_all-Keeps x [] c = (refl, refl)
  listen_all-Keeps x (none ∷ topics) c = listen_all-Keeps x topics c
  listen_all-Keeps x (some e ∷ topics) c = listen_all-Keeps x topics (listen sets x e.name c)

  topics-Keeps :
      (t : Topics) (x : Subscriber) (c : Center sets) → Keeps c (subscribe_topics sets t x c).1
  topics-Keeps (single none) x c = (refl, refl)
  topics-Keeps (single (some e)) x c = subscribe_kind-Keeps e.sequence x e c
  topics-Keeps neither x c = (refl, refl)
  topics-Keeps (multi topics) x c =
      let r : Option NotifyError × Center sets = subscribe_each sets x topics c in
      let some_of = subscribe_each-Keeps x topics c in
      elim (Option-cases r.0) [
        | inl fine ↦
            rw (fine, subscribe_topics)
              (Keeps-trans c r.1 (listen_all sets x topics r.1) some_of
                (listen_all-Keeps x topics r.1))
        | inr (err, stop) ↦ rw (stop, subscribe_topics) some_of
      ]

  subscribe-Keeps : (x : Subscriber) (c : Center sets) → Keeps c (register_subscriber sets x c).1
  unfolding register_subscriber
  subscribe-Keeps x c = topics-Keeps x.topics x c

  unlisten-Keeps :
      (x : Subscriber) (topic : Text) (o : Option sets.SyncSet) (c : Center sets)
      → Keeps c (unlisten sets x topic o c).1
  unlisten-Keeps x topic none c = (refl, refl)
  unlisten-Keeps x topic (some _) c = (refl, refl)

  unlisten_all-Keeps :
      (x : Subscriber) (topics : List (Option Event)) (c : Center sets)
      → Keeps c (unlisten_all sets x topics c).1
  unfolding unlisten_all
  unlisten_all-Keeps x [] c = (refl, refl)
  unlisten_all-Keeps x (none ∷ topics) c = (refl, refl)
  unlisten_all-Keeps x (some e ∷ topics) c = elim (Option-cases (lookup e.name c.listeners)) [
    | inl absent ↦ rw (absent, unlisten_all) (unlisten_all-Keeps x topics c)
    | inr (set, there) ↦
        rw (there, unlisten_all)
          (unlisten_all-Keeps x topics
            (record c { listeners = insert e.name (sets.remove x set) c.listeners }))
  ]

  deregister_topics-Keeps :
      (t : Topics) (x : Subscriber) (c : Center sets) → Keeps c (deregister_topics sets t x c).1
  deregister_topics-Keeps (single none) x c = (refl, refl)
  deregister_topics-Keeps (single (some e)) x c =
      unlisten-Keeps x e.name (lookup e.name c.listeners) c
  deregister_topics-Keeps (multi topics) x c = unlisten_all-Keeps x topics c
  deregister_topics-Keeps neither x c = (refl, refl)

  deregister-Keeps : (x : Subscriber) (c : Center sets) → Keeps c (deregister_subscriber sets x c).1
  unfolding deregister_subscriber
  deregister-Keeps x c = deregister_topics-Keeps x.topics x c

  shutdown_rest-Keeps :
      (ps : Dict Publisher) (c : Center sets) → Keeps c (shutdown_rest sets ps c).1
  shutdown_rest-Keeps [] c = (refl, refl)
  shutdown_rest-Keeps (_ ∷ _) c = (refl, refl)

  shutdown-Keeps : (c : Center sets) → Keeps c (shutdown sets c).1
  unfolding shutdown
  shutdown-Keeps c = elim (Bool-cases c.share_queue.closed) [
    | inl closed ↦ rw (closed, shutdown) (refl, refl)
    | inr live ↦
        rw (live, shutdown)
          (shutdown_rest-Keeps c.publishers
            (record c { share_queue = record c.share_queue { closed = true } }))
  ]

  -- No event was delivered to a subscriber, or found out of date.
  pub record IsSilent (c : Center sets) : Type 0 where
    pub unlogged : c.has_log ≡ false
    pub undelivered : c.deliveries ≡ record { delivered = []; expired = [] }

  kept : {c c' : Center sets} → IsSilent c → Keeps c c' → IsSilent c'
  kept h k = record { unlogged = k.0 ∙ h.unlogged; undelivered = k.1 ∙ h.undelivered }

  take_event-IsSilent :
      (topic : Text) (e : Event) (rest : List Event) (p : Publisher) (c : Center sets)
      → IsSilent c
      → IsSilent (take_event sets float_max topic e rest p c)
  unfolding take_event handle
  take_event-IsSilent topic e rest p c h = record {
    unlogged = h.unlogged;
    undelivered = rw (h.unlogged, take_event, handle) h.undelivered;
  }

  abbrev taken : List Event → Center sets → Center sets
  taken rest c = record c { share_queue = record c.share_queue { items = rest } }

  shut :
      (c : Center sets) (b : Bool) (x y : Center sets)
      → b ≡ false
      → Keeps c y
      → Keeps c (if b then x else y)
  shut c b x y e h = rw e h

  take_slow-Keeps :
      (e : Option Event) (rest : List Event) (c : Center sets)
      → c.has_log ≡ false
      → Keeps c (take_slow_event sets e rest c)
  unfolding take_slow_event
  take_slow-Keeps e rest c h =
      shut c (c.share_owned && c.has_log) (notify_slow sets e (taken rest c))
        (record (taken rest c) { share_running = false }) (ground (arith, h)) (refl, refl)

  Step-IsSilent : {s t : Center sets} → Step s t → IsSilent s → IsSilent t
  unfolding register_on_expire
  Step-IsSilent {s} (registers e size q) h = rw q (kept h (register-Keeps e size s))
  Step-IsSilent {s} (publishes done first e q) h = rw q (kept h (publish-Keeps done first e s))
  Step-IsSilent {s} (subscribes x q) h = rw q (kept h (subscribe-Keeps x s))
  Step-IsSilent {s} (deregisters x q) h = rw q (kept h (deregister-Keeps x s))
  Step-IsSilent {s} (shuts q) h = rw q (kept h (shutdown-Keeps s))
  Step-IsSilent {s} (watches q) h = rw q (kept h (refl, refl))
  Step-IsSilent {s} (handles topic p e rest _ _ _ q) h =
      rw q (take_event-IsSilent topic e rest p s h)
  Step-IsSilent {s} (handles_slow e rest _ _ q) h =
      rw q (kept h (take_slow-Keeps (some e) rest s h.unlogged))
  Step-IsSilent {s} (handles_closed _ _ _ q) h =
      rw q (kept h (take_slow-Keeps none [] s h.unlogged))

  Reach-IsSilent : {s t : Center sets} → IsSilent s → Reach s t → IsSilent t
  Reach-IsSilent h here = h
  Reach-IsSilent h (next r st) = Step-IsSilent st (Reach-IsSilent h r)

  -- Whatever is registered, published and subscribed, in whatever order, and whatever events the
  -- handlers take: from the start of the program on no subscriber is called, and no event is found out
  -- of date.
  pub nothing_delivered :
      (size : ℕ) (c : Center sets)
      → Reach (init_center sets size) c
      → (c.deliveries.delivered ≡ []) × (c.deliveries.expired ≡ [])
  unfolding init_center
  nothing_delivered size c r =
      let h = Reach-IsSilent (record { unlogged = refl; undelivered = refl }) r in
      (ap (λ d. d.delivered) h.undelivered, ap (λ d. d.expired) h.undelivered)
