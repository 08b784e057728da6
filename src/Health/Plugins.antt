-- ===== src/Health/Plugins.antt =====
-- `PluginCenter` of plugin/plugin_center.go, for any type of plugins with a name. The plugins that
-- were started and destroyed are kept, latest first.
use pole.Prelude.{◌≡◌, refl, Option, none, some, List, [], ◌∷◌, Text, Dict, lookup, insert}
use pole.Prelude.Maps.{lookup-insert_self}

module _ (Plugin : Type 0) (name_of : Plugin → Text) where
  pub record PluginCenter : Type 0 where
    pub plugin_repository : Dict Plugin
    pub launched : List Plugin
    pub destroyed : List Plugin

  unfoldable pub new_plugin_center : PluginCenter
  new_plugin_center = record { plugin_repository = []; launched = []; destroyed = [] }

  pub data Registration : Type 0 where
    accepted already_there : Registration

  abbrev pub register_found : Option Plugin → Plugin → PluginCenter → Registration × PluginCenter
  register_found (some _) p c = (already_there, c)
  register_found none p c = (
    accepted,
    record c {
      plugin_repository = insert (name_of p) p c.plugin_repository;
      launched = p ∷ c.launched;
    },
  )

  unfoldable pub register_plugin : Plugin → PluginCenter → Registration × PluginCenter
  register_plugin p c = register_found (lookup (name_of p) c.plugin_repository) p c

  abbrev pub deregister_found : Option Plugin → Plugin → PluginCenter → Registration × PluginCenter
  deregister_found (some _) p c = (already_there, c)
  deregister_found none p c = (
    accepted,
    record c {
      plugin_repository = insert (name_of p) p c.plugin_repository;
      destroyed = p ∷ c.destroyed;
    },
  )

  -- `DeregisterPlugin` tests as `RegisterPlugin` does.
  unfoldable pub deregister_plugin : Plugin → PluginCenter → Registration × PluginCenter
  deregister_plugin p c = deregister_found (lookup (name_of p) c.plugin_repository) p c

  unfoldable pub get_plugin_by_name : Text → PluginCenter → Option Plugin
  get_plugin_by_name name c = lookup name c.plugin_repository

  -- After a plugin was registered, deregistering it is refused and it stays: it is still found, and it
  -- is not destroyed. Deregistering one that is not there is accepted, and puts it there, destroyed.
  pub deregister_plugin_lem :
      (p : Plugin) (c : PluginCenter)
      → get_plugin_by_name (name_of p) c ≡ none
      → (deregister_plugin p (register_plugin p c).1 ≡ (already_there, (register_plugin p c).1))
        × (get_plugin_by_name (name_of p) (register_plugin p c).1 ≡ some p)
        × ((deregister_plugin p c).0 ≡ accepted)
        × (get_plugin_by_name (name_of p) (deregister_plugin p c).1 ≡ some p)
        × ((deregister_plugin p c).1.destroyed ≡ p ∷ c.destroyed)
  unfolding register_plugin deregister_plugin get_plugin_by_name
  deregister_plugin_lem p c absent =
      let there = lookup-insert_self (name_of p) p c.plugin_repository in
      (rw (absent, there) refl, rw absent there, rw absent refl, rw absent there, rw absent refl)
