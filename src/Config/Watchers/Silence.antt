-- ===== src/Config/Watchers/Silence.antt =====
-- What the watchers of server/config/config_core.go are sent by `OnEvent`, with a set made of a slice.
use pole.Prelude.{
  Bool, Option, none, some, List, [], ◌∷◌, ℕ, Text, lookup, lookup-insert_self, panicked, ◌≡◌, refl,
  ◌∙◌, ap,
}
use pole.Config.Files.{
  ChangeEvent, ConfigChangeEvent, normal_change, beta_change, other_event, ConfigWatchRequest,
}
use pole.Config.Watchers.{
  TextSets, IsSets, WatcherManager, AggWatcher, Log, select_watcher, on_change_event, add_watcher,
  add_found, agg_or_new,
}

-- The calls that reach a manager: from a client, with its connection, and from the event centre.
pub data WatchCall : Type 0 where
  watch_call : ConfigWatchRequest → ℕ → WatchCall
  change_call : Bool → ChangeEvent → WatchCall

module _ (sets : TextSets) where
  -- The calls one after the other, each on what the one before left, by a panic too.
  unfoldable pub run_calls :
      List WatchCall → WatcherManager sets → Log sets → WatcherManager sets × Log sets
  unfolding add_watcher on_change_event
  run_calls [] mgn log = (mgn, log)
  run_calls (watch_call req ctx ∷ calls) mgn log =
      run_calls calls (add_watcher sets req ctx mgn).1 log
  run_calls (change_call marshals e ∷ calls) mgn log =
      run_calls calls mgn (on_change_event sets marshals e mgn log).1

  module _ (laws : IsSets sets) where
    select_panics :
        (ids : AggWatcher sets) (client_ids : List Text) (marshals : Bool) (e : ConfigChangeEvent)
        (mgn : WatcherManager sets) (log : Log sets)
        → lookup e.namespace mgn.watcher_repository ≡ some ids
        → select_watcher sets client_ids marshals e mgn log ≡ (panicked, log)
    unfolding select_watcher
    select_panics ids client_ids marshals e mgn log h =
        rw (h, laws.slice_panics client_ids, select_watcher) refl

    select_keeps :
        (o : Option (AggWatcher sets)) (client_ids : List Text) (marshals : Bool)
        (e : ConfigChangeEvent) (mgn : WatcherManager sets) (log : Log sets)
        → lookup e.namespace mgn.watcher_repository ≡ o
        → (select_watcher sets client_ids marshals e mgn log).1 ≡ log
    unfolding select_watcher
    select_keeps none client_ids marshals e mgn log h = rw (h, select_watcher) refl
    select_keeps (some ids) client_ids marshals e mgn log h =
        ap (λ r. r.1) (select_panics ids client_ids marshals e mgn log h)

    on_change_event_keeps :
        (marshals : Bool) (e : ChangeEvent) (mgn : WatcherManager sets) (log : Log sets)
        → (on_change_event sets marshals e mgn log).1 ≡ log
    unfolding on_change_event
    on_change_event_keeps marshals (normal_change e) mgn log =
        select_keeps (lookup e.namespace mgn.watcher_repository) [] marshals e mgn log refl
    on_change_event_keeps marshals (beta_change e) mgn log = refl
    on_change_event_keeps marshals other_event mgn log = refl

    -- Whatever clients register and whatever changes are announced, in any order, no client is
    -- ever sent a change.
    pub run_calls_lem :
        (calls : List WatchCall) (mgn : WatcherManager sets) (log : Log sets)
        → (run_calls calls mgn log).1 ≡ log
    unfolding run_calls
    run_calls_lem [] mgn log = refl
    run_calls_lem (watch_call req ctx ∷ calls) mgn log =
        run_calls_lem calls (add_watcher sets req ctx mgn).1 log
    run_calls_lem (change_call marshals e ∷ calls) mgn log =
        run_calls_lem calls mgn (on_change_event sets marshals e mgn log).1
        ∙ on_change_event_keeps marshals e mgn log

    -- A change of a file in a namespace that a client has just asked to watch panics, with nothing
    -- sent.
    pub on_change_event-add_watcher :
        (req : ConfigWatchRequest) (ctx : ℕ) (mgn : WatcherManager sets) (marshals : Bool)
        (e : ConfigChangeEvent) (log : Log sets)
        → e.namespace ≡ req.namespace
        → on_change_event sets marshals (normal_change e) (add_watcher sets req ctx mgn).1 log
          ≡ (panicked, log)
    unfolding on_change_event add_watcher
    on_change_event-add_watcher req ctx mgn marshals e log h =
        let ids = agg_or_new sets (lookup req.namespace mgn.watcher_repository) in
        let ids' = (add_found sets (lookup req.id ids) req ctx ids).1 in
        select_panics ids' [] marshals e (add_watcher sets req ctx mgn).1 log (
          ap (λ n. lookup n (add_watcher sets req ctx mgn).1.watcher_repository) h
          ∙ lookup-insert_self req.namespace ids' mgn.watcher_repository)
