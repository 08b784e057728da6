-- ===== src/Config/Core.antt =====
-- `ConfigCore` of server/config/config_core.go and the handlers of `ConfAPI` in config_server.go. The
-- storage is an interface of which one call is made, `SaveConfig`; its calls are kept, the latest first.
pub mod Requests
use pole.Prelude.{
  ℕ, Bool, true, false, Option, none, some, List, [], ◌∷◌, Text, codes, Outcome, returned, panicked,
  if◌then◌else◌, ◌≡◌,
}
use pole.Storage.Kv.{Result, ok, err}
use pole.Config.Files.{
  ConfigFile, file_with, BetaInfo, ConfigRequest, ConfigWatchRequest, ServerResponse,
  ConfigBetaFile,
}
use pole.Config.Filters.{
  HandlerChain, Implement, normal_config, beta_config, other_config, do_chain,
}
use pole.Config.Watchers.{TextSets, WatcherManager, Log, add_watcher}

pub data ConfigOpType : Type 0 where
  op_for_publish_config op_for_create_config op_for_modify_config op_for_delete_config :
      ConfigOpType

abbrev pub plain_response : ℕ → Text → ServerResponse
plain_response code msg = record { code = code; msg = msg; body = none }

module _ (sets : TextSets) where
  -- Nil pointers and interfaces are `none`. `sent` is what was sent on each connection.
  pub record ConfigCore : Type 0 where
    pub filter_chain : Option HandlerChain
    pub watcher_mgn : Option (WatcherManager sets)
    pub storage_op : Option (List ConfigFile)
    pub sent : Log sets

  unfoldable pub new_config_core : ConfigCore
  new_config_core = record { filter_chain = none; watcher_mgn = none; storage_op = none; sent = [] }

  abbrev pub Done : Type 0
  Done = Outcome (Unit {0}) × ConfigCore

  abbrev pub respond : ℕ → ServerResponse → ConfigCore → Done
  respond ctx r c = (returned tt, record c { sent = (ctx, r) ∷ c.sent })

  abbrev pub save_config : ConfigFile → ConfigCore → Done
  save_config cfg c = elim c.storage_op [
    | none ↦ (panicked, c)
    | some files ↦ (returned tt, record c { storage_op = some (cfg ∷ files) })
  ]

  unfoldable pub operate_normal_config : ConfigOpType → ConfigFile → ConfigCore → Done
  operate_normal_config op_for_create_config cfg c = save_config cfg c
  operate_normal_config op_for_modify_config cfg c = save_config cfg c
  operate_normal_config op_for_publish_config cfg c = (returned tt, c)
  operate_normal_config op_for_delete_config cfg c = (returned tt, c)

  unfoldable pub operate_beta_config : ConfigOpType → ConfigBetaFile → ConfigCore → Done
  operate_beta_config op cfg c = (returned tt, c)

  -- After the filters, on the file that they leave; the beta part of a request may be nil.
  abbrev pub operate_filtered : ConfigOpType → Option BetaInfo → ConfigFile → ConfigCore → Done
  operate_filtered op none cfg c = (panicked, c)
  operate_filtered op (some info) cfg c =
      if info.is_open
      then operate_beta_config op (record { cfg = cfg; beta_clients = info.client_ids }) c
      else operate_normal_config op cfg c

  abbrev pub after_chain :
      ConfigOpType → ConfigRequest → ℕ → Outcome (Option Text) × Implement → ConfigCore → Done
  after_chain op request ctx (panicked, _) c = (panicked, c)
  after_chain op request ctx (returned (some e), _) c = respond ctx (plain_response 500 e) c
  after_chain op request ctx (returned none, normal_config cfg) c =
      operate_filtered op request.beta_info cfg c
  after_chain op request ctx (returned none, beta_config cfg) c =
      operate_filtered op request.beta_info cfg.cfg c
  after_chain op request ctx (returned none, other_config) c = (returned tt, c)

  -- `operateConfig`; `now` is what `GetCurrentTimeMs` gives, a panic until the clock has ticked.
  unfoldable pub operate_config : Option ℕ → ConfigOpType → ConfigRequest → ℕ → ConfigCore → Done
  unfolding do_chain operate_normal_config operate_beta_config
  operate_config none op request ctx c = (panicked, c)
  operate_config (some now) op request ctx c =
      after_chain op request ctx
        (do_chain c.filter_chain (normal_config (file_with request.file_type now))) c

  abbrev pub watch_failed : ServerResponse
  watch_failed = plain_response 500 (codes "add config watch failed")

  -- The answer to what `AddWatcher` returns.
  abbrev pub after_add : ℕ → Outcome (Bool × Option Text) → ConfigCore → Done
  after_add ctx panicked c = (panicked, c)
  after_add ctx (returned (true, none)) c = respond ctx (plain_response 200 (codes "success")) c
  after_add ctx (returned (true, some e)) c = respond ctx watch_failed c
  after_add ctx (returned (false, _)) c = respond ctx watch_failed c

  unfoldable pub listen_config : ConfigWatchRequest → ℕ → ConfigCore → Done
  unfolding add_watcher
  listen_config request ctx c = elim c.watcher_mgn [
    | none ↦ (panicked, c)
    | some mgn ↦
        after_add ctx (add_watcher sets request ctx mgn).0
          (record c { watcher_mgn = some (add_watcher sets request ctx mgn).1 })
  ]

  -- The handlers, from what `UnmarshalAny` makes of the body.
  unfoldable pub publish_config : Option ℕ → Result ConfigRequest → ℕ → ConfigCore → Done
  unfolding operate_config
  publish_config now (err e) ctx c = respond ctx (plain_response 500 e) c
  publish_config now (ok req) ctx c = operate_config now op_for_publish_config req ctx c

  unfoldable pub create_config : Option ℕ → Result ConfigRequest → ℕ → ConfigCore → Done
  unfolding operate_config
  create_config now (err e) ctx c = respond ctx (plain_response 500 e) c
  create_config now (ok req) ctx c = operate_config now op_for_create_config req ctx c

  unfoldable pub modify_config : Option ℕ → Result ConfigRequest → ℕ → ConfigCore → Done
  unfolding operate_config
  modify_config now (err e) ctx c = respond ctx (plain_response 500 e) c
  modify_config now (ok req) ctx c = operate_config now op_for_modify_config req ctx c

  unfoldable pub delete_config : Option ℕ → Result ConfigRequest → ℕ → ConfigCore → Done
  unfolding operate_config
  delete_config now (err e) ctx c = respond ctx (plain_response 500 e) c
  delete_config now (ok req) ctx c = operate_config now op_for_delete_config req ctx c

  unfoldable pub watch_config : Result ConfigWatchRequest → ℕ → ConfigCore → Done
  unfolding listen_config
  watch_config (err e) ctx c = respond ctx (plain_response 500 e) c
  watch_config (ok req) ctx c = listen_config req ctx c
