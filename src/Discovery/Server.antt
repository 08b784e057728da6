-- ===== src/Discovery/Server.antt =====
-- The handlers of `DiscoverySdkAPI` in server/discovery/discovery_server.go, which pass requests on to the
-- service manager. A core that is not set is `none`; what the handlers send themselves is kept in
-- `answers`, latest first.
use pole.Prelude.{
  ℕ, Option, none, some, List, [], ◌∷◌, Text, Outcome, returned, panicked, ◌≡◌, refl, sym, ◌∙◌, ◌^◌,
  ◌-◌,
}
use pole.Prelude.ConcurrentMaps.{ConcurrentMapApi}
use pole.Discovery.Model.{OriginInstance}
use pole.Discovery.Interfaces.{DiscoveryStorage}
use pole.Discovery.Services.{Response}
use pole.Discovery.Manager.{ServiceManager, add_instance, remove_instance}

-- A request to register or deregister an instance, as it is read; an instance that is missing is nil.
pub record InstanceRequest : Type 0 where
  pub namespace_id : Text
  pub instance : Option OriginInstance

-- What reading a body leaves, and the error, after which the request may be read in part.
abbrev pub Body : Type 0
Body = InstanceRequest × Option Text

-- Code -1, an int32.
abbrev pub refusal : Text → Response
refusal msg = record { code = 2 ^ 32 - 1; msg = msg }

module _ (maps : ConcurrentMapApi) (store : DiscoveryStorage) where
  pub record DiscoverySdkApi : Type 0 where
    pub core : Option (ServiceManager maps store)
    pub answers : List Response

  unfoldable pub new_discovery_sdk_api : DiscoverySdkApi
  new_discovery_sdk_api = record { core = none; answers = [] }

  abbrev pub Handled : Type 0
  Handled = Outcome (Unit {0}) × DiscoverySdkApi

  -- A call of the service manager, which reads the core and the instance first.
  abbrev pub call_core :
      (Text
        → OriginInstance
        → ServiceManager maps store
        → Outcome (Unit {0}) × ServiceManager maps store)
      → Option OriginInstance
      → Option (ServiceManager maps store)
      → Text
      → DiscoverySdkApi
      → Handled
  call_core call none core namespace api = (panicked, api)
  call_core call (some i) none namespace api = (panicked, api)
  call_core call (some i) (some sm) namespace api =
      let (r, sm') = call namespace i sm in (r, record api { core = some sm' })

  -- The answer to a body that is not read, after which the handler goes on.
  abbrev pub answer_unread : Body → DiscoverySdkApi → InstanceRequest × DiscoverySdkApi
  answer_unread (req, some e) api = (req, record api { answers = refusal e ∷ api.answers })
  answer_unread (req, none) api = (req, api)

  abbrev pub pass_on :
      (Text
        → OriginInstance
        → ServiceManager maps store
        → Outcome (Unit {0}) × ServiceManager maps store)
      → InstanceRequest × DiscoverySdkApi
      → Handled
  pass_on call (req, api) = call_core call req.instance api.core req.namespace_id api

  unfoldable pub instance_register : ℕ → Body → DiscoverySdkApi → Handled
  unfolding add_instance
  instance_register now r api = pass_on (add_instance maps store now) (answer_unread r api)

  unfoldable pub instance_deregister : Body → DiscoverySdkApi → Handled
  unfolding remove_instance
  instance_deregister r api = pass_on (remove_instance maps store) (answer_unread r api)

  unfoldable pub instance_disabled : Body → DiscoverySdkApi → Handled
  instance_disabled r api = (returned tt, (answer_unread r api).1)

  core_missing :
      (call : Text
        → OriginInstance
        → ServiceManager maps store
        → Outcome (Unit {0}) × ServiceManager maps store)
      (i : Option OriginInstance) (ns : Text) (api : DiscoverySdkApi)
      → call_core call i none ns api ≡ (panicked, api)
  core_missing call none ns api = refl
  core_missing call (some i) ns api = refl

  -- Of the requests to register and to deregister an instance, an API as it is made answers those that it
  -- cannot read and no other, and panics on every one.
  pub instance_register-new_discovery_sdk_api :
      (now : ℕ) (r : Body)
      → (instance_register now r new_discovery_sdk_api ≡ (
        panicked,
        record { core = none; answers = elim r.1 [ some e ↦ refusal e ∷ [] | none ↦ [] ] },
      ))
        × (instance_deregister r new_discovery_sdk_api
            ≡ instance_register now r new_discovery_sdk_api)
  unfolding instance_register instance_deregister new_discovery_sdk_api
  instance_register-new_discovery_sdk_api now (req, none) =
      let api : DiscoverySdkApi = record { core = none; answers = [] } in
      let registered =
        core_missing (add_instance maps store now) req.instance req.namespace_id api in
      (
        registered,
        core_missing (remove_instance maps store) req.instance req.namespace_id api
            ∙ sym registered,
      )
  instance_register-new_discovery_sdk_api now (req, some e) =
      let api : DiscoverySdkApi = record { core = none; answers = refusal e ∷ [] } in
      let registered =
        core_missing (add_instance maps store now) req.instance req.namespace_id api in
      (
        registered,
        core_missing (remove_instance maps store) req.instance req.namespace_id api
            ∙ sym registered,
      )
