-- ===== src/Config/Watchers/Watching.antt =====
-- What `AddWatcher` of server/config/config_core.go registers.
use pole.Prelude.{
  Bool, false, Option, none, some, List, [], ◌∷◌, ℕ, Text, Dict, lookup, insert, lookup-insert,
  str_eq, str_eq_iff, str_eq_refl, ◌&&◌, ◌≡◌, refl, ◌∙◌, ap, ◌||◌, if◌then◌else◌, arith,
}
use pole.Config.Files.{ConfigWatchRequest}
use pole.Config.Watchers.{
  TextSets, IsSets, WatcherManager, Watcher, WatchKey, watches, agg_or_new, add_names, new_items,
  add_watcher,
}

-- The keys of a Go map are different.
abbrev pub DistinctKeys : Dict (List Text) → Type 0
DistinctKeys [] = Unit
DistinctKeys ((k, v) ∷ m) = (lookup k m ≡ none) × DistinctKeys m

unfoldable pub mem_text : Text → List Text → Bool
mem_text t [] = false
mem_text t (u ∷ us) = str_eq u t || mem_text t us

-- Whether a request names a file of a group.
unfoldable pub asks : Dict (List Text) → Text → Text → Bool
unfolding mem_text
asks items group filename = elim (lookup group items) [
  | none ↦ false
  | some filenames ↦ mem_text filename filenames
]

module _ (sets : TextSets) where
  -- The watcher of a client, in a namespace.
  unfoldable pub watcher_of : Text → Text → WatcherManager sets → Option (Watcher sets)
  watcher_of namespace id mgn =
      lookup id (agg_or_new sets (lookup namespace mgn.watcher_repository))

  -- The watcher that is made for a request.
  abbrev pub new_watcher : ConfigWatchRequest → ℕ → Watcher sets
  new_watcher req ctx = record {
    id = req.id;
    item_map = new_items sets req.watch_item_map [];
    sink = ctx;
  }

module _ (sets : TextSets) (laws : IsSets sets) where
  open sets use {TextSet, new_set, add, contain}

  pub contain-add_names :
      (t : Text) (names : List Text) (s : TextSet)
      → contain t (add_names sets names s) ≡ (mem_text t names || contain t s)
  unfolding add_names mem_text
  contain-add_names t [] s = refl
  contain-add_names t (n ∷ names) s =
      ground (arith, contain-add_names t names (add n s), laws.contain-add n t s)

  -- The key of a group after a registration.
  abbrev key_of : Text → Option (List Text) → Option (WatchKey sets) → Option (WatchKey sets)
  key_of group none old = old
  key_of group (some names) old =
      some (record { group = group; filenames = add_names sets names new_set })

  lookup-new_items :
      (group : Text) (items : Dict (List Text)) (m : Dict (WatchKey sets))
      → DistinctKeys items
      → lookup group (new_items sets items m) ≡ key_of group (lookup group items) (lookup group m)
  unfolding new_items lookup
  lookup-new_items group [] m d = refl
  lookup-new_items group ((k, v) ∷ items) m d = ground (
    arith,
    str_eq_iff k group,
    d.0,
    lookup-insert k group (record { group = k; filenames = add_names sets v new_set }) m,
    lookup-new_items group items
        (insert k (record { group = k; filenames = add_names sets v new_set }) m) d.1,
  )

  watches_new :
      (items : Dict (List Text)) (group filename : Text)
      → DistinctKeys items
      → watches sets (lookup group (new_items sets items [])) filename ≡ asks items group filename
  unfolding asks lookup
  watches_new items group filename d =
      ap (λ o. watches sets o filename) (lookup-new_items group items [] d)
      ∙ watches_key (lookup group items)
    where
      watches_key :
          (o : Option (List Text))
          → watches sets (key_of group o none) filename
            ≡ elim o [ none ↦ false | some names ↦ mem_text filename names ]
      watches_key none = refl
      watches_key (some names) =
          ground (arith, contain-add_names filename names new_set, laws.contain-new_set filename)

  -- Where a watcher is found once an unknown client has been registered.
  watcher_of_added :
      (req : ConfigWatchRequest) (ctx : ℕ) (mgn : WatcherManager sets) (namespace id : Text)
      → watcher_of sets req.namespace req.id mgn ≡ none
      → watcher_of sets namespace id (add_watcher sets req ctx mgn).1 ≡ (
          if str_eq req.namespace namespace && str_eq req.id id
          then some (new_watcher sets req ctx)
          else watcher_of sets namespace id mgn)
  unfolding watcher_of add_watcher
  watcher_of_added req ctx mgn namespace id h =
      let ids = agg_or_new sets (lookup req.namespace mgn.watcher_repository) in
      let ids' = insert req.id (new_watcher sets req ctx) ids in
      rw (h) (
        ground (
          arith,
          str_eq_iff req.namespace namespace,
          lookup-insert req.namespace namespace ids' mgn.watcher_repository,
          lookup-insert req.id id (new_watcher sets req ctx) ids,
        ))

  -- Once a client that was not known has registered with a request whose groups are different, it
  -- has a watcher, which watches a file exactly where the request names the file's group and the
  -- file; every other client's watcher stays as it was.
  pub watches-add_watcher :
      (req : ConfigWatchRequest) (ctx : ℕ) (mgn : WatcherManager sets) (group filename : Text)
      → DistinctKeys req.watch_item_map
      → watcher_of sets req.namespace req.id mgn ≡ none
      → (watcher_of sets req.namespace req.id (add_watcher sets req ctx mgn).1
          ≡ some (new_watcher sets req ctx))
        × (watches sets (lookup group (new_watcher sets req ctx).item_map) filename
            ≡ asks req.watch_item_map group filename)
        × ((namespace id : Text) (v : Watcher sets)
            → watcher_of sets namespace id mgn ≡ some v
            → watcher_of sets namespace id (add_watcher sets req ctx mgn).1 ≡ some v)
  watches-add_watcher req ctx mgn group filename d h = (
    ground (
      arith,
      watcher_of_added req ctx mgn req.namespace req.id h,
      str_eq_refl req.namespace,
      str_eq_refl req.id,
    ),
    watches_new req.watch_item_map group filename d,
    λ namespace id v hv. ground (
      arith,
      watcher_of_added req ctx mgn namespace id h,
      hv,
      h,
      str_eq_iff req.namespace namespace,
      str_eq_iff req.id id,
    ),
  )
