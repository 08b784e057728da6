-- ===== src/Config/Watchers/Merging.antt =====
-- What `watcher.merge` of server/config/config_core.go does to the files that a client asks for.
use mathlib.Core.Path.{subst}
use pole.Prelude.{
  Option-cases, inl, inr, none, some, List, [], ◌∷◌, Text, Dict, lookup, insert, lookup-insert,
  str_eq_iff, str_eq_refl, ◌≡◌, refl, sym, ◌∙◌, ap, ◌||◌, panicked, returned, arith,
}
use pole.Config.Watchers.{TextSets, IsSets, WatchKey, watches, add_names, merge}
use pole.Config.Watchers.Watching.{DistinctKeys, asks, contain-add_names}

module _ (sets : TextSets) (laws : IsSets sets) where
  -- The key of a group that is merged with more file names.
  abbrev more_names : List Text → WatchKey sets → WatchKey sets
  more_names names i = record i { filenames = add_names sets names i.filenames }

  merge_step :
      (k : Text) (v : List Text) (items : Dict (List Text)) (m : Dict (WatchKey sets))
      (i : WatchKey sets)
      → lookup k m ≡ some i
      → merge sets ((k, v) ∷ items) m ≡ merge sets items (insert k (more_names v i) m)
  unfolding merge
  merge_step k v items m i e = rw (e, merge) refl

  watches_more :
      (k : Text) (v : List Text) (items : Dict (List Text)) (m : Dict (WatchKey sets))
      (i : WatchKey sets)
      → lookup k m ≡ some i
      → lookup k items ≡ none
      → (group filename : Text)
      → (asks items group filename
          || watches sets (lookup group (insert k (more_names v i) m)) filename)
        ≡ (asks ((k, v) ∷ items) group filename || watches sets (lookup group m) filename)
  unfolding asks lookup
  watches_more k v items m i e fresh group filename = ground (
    arith,
    e,
    fresh,
    str_eq_iff k group,
    lookup-insert k group (more_names v i) m,
    contain-add_names sets laws filename v i.filenames,
  )

  -- Merging groups that the watcher has adds the files of the request to those that it asked for.
  merge_known :
      (items : Dict (List Text)) (m : Dict (WatchKey sets))
      → DistinctKeys items
      → ((group : Text) → lookup group m ≡ none → lookup group items ≡ none)
      → ((merge sets items m).0 ≡ returned tt)
        × ((group filename : Text)
            → watches sets (lookup group (merge sets items m).1) filename
              ≡ (asks items group filename || watches sets (lookup group m) filename))
  unfolding merge lookup asks
  merge_known [] m d known = (refl, λ group filename. refl)
  merge_known ((k, v) ∷ items) m d known = elim (Option-cases (lookup k m)) [
    | inl e ↦ ground (arith, known k e, str_eq_refl k)
    | inr (i, e) ↦
        let m' = insert k (more_names v i) m in
        let rest =
          merge_known items m' d.1
            (λ group h. ground (arith, known group, lookup-insert k group (more_names v i) m, h)) in
        subst
          (λ r.
            (r.0 ≡ returned tt)
            × ((group filename : Text)
                → watches sets (lookup group r.1) filename ≡ (
                    asks ((k, v) ∷ items) group filename
                    || watches sets (lookup group m) filename)))
          (sym (merge_step k v items m i e))
          (
            rest.0,
            λ group filename.
                rest.1 group filename ∙ watches_more k v items m i e d.0 group filename,
          )
  ]

  -- Merging a group that the watcher has not panics.
  merge_unknown :
      (items : Dict (List Text)) (m : Dict (WatchKey sets)) (group : Text) (names : List Text)
      → lookup group items ≡ some names
      → lookup group m ≡ none
      → (merge sets items m).0 ≡ panicked
  unfolding lookup merge
  merge_unknown [] m group names h hm = ground (arith, h)
  merge_unknown ((k, v) ∷ items) m group names h hm = elim (Option-cases (lookup k m)) [
    | inl e ↦ rw (e, laws.slice_panics v, merge) refl
    | inr (i, e) ↦
        ap (λ r. r.0) (merge_step k v items m i e)
        ∙ merge_unknown items (insert k (more_names v i) m) group names
            (ground (arith, str_eq_iff k group, h, hm, e))
            (ground (arith, str_eq_iff k group, hm, e, lookup-insert k group (more_names v i) m))
  ]
