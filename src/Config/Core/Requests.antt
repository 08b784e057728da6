-- ===== src/Config/Core/Requests.antt =====
-- What the handlers of server/config/config_server.go do with a request.
use pole.Prelude.{
  Bool, true, false, Option, none, some, List, ◌∷◌, ℕ, Text, returned, panicked, ◌≡◌, refl, ap, ◌∙◌,
  if◌then◌else◌, ◌⊎◌, ◌&&◌, not, arith, inl, inr, lookup,
}
use pole.Prelude.Outcomes.{Outcome-cases}
use pole.Storage.Kv.{Result, ok, err}
use pole.Config.Files.{ConfigFile, ConfigRequest, ConfigWatchRequest, BetaInfo, file_with}
use pole.Config.Filters.{HandlerChain, do_chain, normal_config, filter_all_lem}
use pole.Config.Watchers.{
  TextSets, WatcherManager, add_watcher, add_found, agg_or_new, merge, Watcher, AggWatcher,
}
use pole.Config.Core.{
  ConfigOpType, op_for_publish_config, op_for_create_config, op_for_modify_config,
  op_for_delete_config, plain_response, ConfigCore, new_config_core, Done, respond, operate_config,
  operate_normal_config, operate_beta_config, listen_config, watch_failed, publish_config,
  create_config, modify_config, delete_config, watch_config, after_chain, operate_filtered,
}

-- A request as a handler gets it, with its operation; a body that is not read is an error's text.
pub data ConfigCall : Type 0 where
  file_call : ConfigOpType → Result ConfigRequest → ConfigCall
  watch_call : Result ConfigWatchRequest → ConfigCall

-- The error with which a body is refused.
unfoldable pub unread : ConfigCall → Option Text
unread (file_call op (err e)) = some e
unread (file_call op (ok r)) = none
unread (watch_call (err e)) = some e
unread (watch_call (ok r)) = none

module _ (sets : TextSets) where
  -- The handler of each request.
  unfoldable pub serve : Option ℕ → ConfigCall → ℕ → ConfigCore sets → Done sets
  unfolding publish_config create_config modify_config delete_config watch_config
  serve now (file_call op_for_publish_config r) ctx c = publish_config sets now r ctx c
  serve now (file_call op_for_create_config r) ctx c = create_config sets now r ctx c
  serve now (file_call op_for_modify_config r) ctx c = modify_config sets now r ctx c
  serve now (file_call op_for_delete_config r) ctx c = delete_config sets now r ctx c
  serve now (watch_call r) ctx c = watch_config sets r ctx c

  -- A server as it is made answers every request that it cannot read with code 500, and panics on
  -- every other one, with nothing sent and nothing saved.
  pub serve-new_config_core :
      (now : Option ℕ) (call : ConfigCall) (ctx : ℕ)
      → serve now call ctx (new_config_core sets) ≡ elim (unread call) [
        | none ↦ (panicked, new_config_core sets)
        | some e ↦ respond sets ctx (plain_response 500 e) (new_config_core sets)
      ]
  unfolding serve unread new_config_core operate_config listen_config publish_config create_config
      modify_config delete_config watch_config do_chain
  serve-new_config_core now call ctx = ground arith

  abbrev is_write : ConfigOpType → Bool
  is_write op_for_publish_config = false
  is_write op_for_create_config = true
  is_write op_for_modify_config = true
  is_write op_for_delete_config = false

  -- A request of which the beta part is read.
  open_lem :
      (op : ConfigOpType) (is_open : Bool) (ids : List Text) (cfg : ConfigFile)
      (c : ConfigCore sets) (files : List ConfigFile)
      → c.storage_op ≡ some files
      → (if is_open
          then operate_beta_config sets op (record { cfg = cfg; beta_clients = ids }) c
          else operate_normal_config sets op cfg c)
        ≡ (
          returned tt,
          record c {
            storage_op = some (if is_write op && not is_open then cfg ∷ files else files);
          },
        )
  unfolding operate_normal_config operate_beta_config
  open_lem op_for_publish_config true ids cfg c files h =
      ap (λ o. (returned tt, record c { storage_op = o })) h
  open_lem op_for_publish_config false ids cfg c files h =
      ap (λ o. (returned tt, record c { storage_op = o })) h
  open_lem op_for_create_config true ids cfg c files h =
      ap (λ o. (returned tt, record c { storage_op = o })) h
  open_lem op_for_create_config false ids cfg c files h = rw (h) refl
  open_lem op_for_modify_config true ids cfg c files h =
      ap (λ o. (returned tt, record c { storage_op = o })) h
  open_lem op_for_modify_config false ids cfg c files h = rw (h) refl
  open_lem op_for_delete_config true ids cfg c files h =
      ap (λ o. (returned tt, record c { storage_op = o })) h
  open_lem op_for_delete_config false ids cfg c files h =
      ap (λ o. (returned tt, record c { storage_op = o })) h

  -- With filters and a storage, a request is served without an answer. One that creates or modifies
  -- a file outside a beta saves a file that has the request's type and the time as its version, and
  -- neither the name nor the content; every other one saves nothing.
  pub operate_config_lem :
      (now : ℕ) (op : ConfigOpType) (req : ConfigRequest) (ctx : ℕ) (c : ConfigCore sets)
      (chain : HandlerChain) (files : List ConfigFile) (info : BetaInfo)
      → c.filter_chain ≡ some chain
      → c.storage_op ≡ some files
      → req.beta_info ≡ some info
      → operate_config sets (some now) op req ctx c ≡ (
        returned tt,
        record c {
          storage_op = some (
              if is_write op && not info.is_open
              then file_with req.file_type now ∷ files
              else files);
        },
      )
  unfolding operate_config do_chain
  operate_config_lem now op req ctx c chain files info f h b =
      let file = file_with req.file_type now in
      ap (λ o. after_chain sets op req ctx (do_chain o (normal_config file)) c) f
      ∙ ap (λ filtered. operate_filtered sets op req.beta_info filtered c)
          (filter_all_lem chain file)
      ∙ ap (λ o. operate_filtered sets op o file c) b
      ∙ open_lem op info.is_open info.client_ids file c files h

  found_lem :
      (o : Option (Watcher sets)) (req : ConfigWatchRequest) (ctx : ℕ) (ids : AggWatcher sets)
      → ((add_found sets o req ctx ids).0 ≡ panicked)
        ⊎ ((add_found sets o req ctx ids).0 ≡ returned (false, none))
  found_lem none req ctx ids = inr refl
  found_lem (some w) req ctx ids =
      elim (Outcome-cases (merge sets req.watch_item_map w.item_map).0) [
        | inl e ↦ inl (rw (e, add_found) refl)
        | inr (_, e) ↦ inr (rw (e, add_found) refl)
      ]

  -- Once the manager is made, a client that asks to watch files is answered that this has failed,
  -- whether or not it has been registered; unless the call panics.
  pub listen_config_lem :
      (req : ConfigWatchRequest) (ctx : ℕ) (c : ConfigCore sets) (mgn : WatcherManager sets)
      → c.watcher_mgn ≡ some mgn
      → (listen_config sets req ctx c
          ≡ respond sets ctx
              (watch_failed sets)
              (record c { watcher_mgn = some (add_watcher sets req ctx mgn).1 }))
        ⊎ ((listen_config sets req ctx c).0 ≡ panicked)
  unfolding listen_config add_watcher
  listen_config_lem req ctx c mgn h =
      let ids = agg_or_new sets (lookup req.namespace mgn.watcher_repository) in
      elim (found_lem (lookup req.id ids) req ctx ids) [
        | inl e ↦ inr (rw (h, e) refl)
        | inr e ↦ inl (rw (h, e) refl)
      ]
