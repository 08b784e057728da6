-- ===== src/Discovery/Instances.antt =====
-- All instances of a service: `Service.findAllInstance` of server/discovery/discovery_model.go, with the
-- other operations of a cluster and the setters of an instance.
use pole.Prelude.{
  ℕ, zero, suc, ◌+◌, Bool, Option, none, some, List, [], ◌∷◌, ◌++◌, length, length-append, map,
  Outcome, returned, panicked, ◌≡◌, refl, ap, ◌∙◌, sym, arith,
}
use pole.Prelude.ConcurrentMaps.{ConcurrentMapApi}
use pole.Discovery.Model.{Instance, get_key}
use pole.Discovery.Services.{Cluster, Service}

-- What the setters do: an instance is passed by value, and shares only what it points to.
unfoldable pub set_healthy : Bool → Instance → Instance
set_healthy healthy i = i

unfoldable pub set_enabled : Bool → Instance → Instance
set_enabled enabled i = record i {
  origin_instance = record i.origin_instance { enabled = enabled };
}

-- `allInstances[index] = v` for each value, in what is left of the slice.
unfoldable pub assign_all :
    List Instance → List (Option Instance) → Outcome (List (Option Instance))
assign_all [] left = returned left
assign_all (i ∷ is) [] = panicked
assign_all (i ∷ is) (slot ∷ left) = elim (assign_all is left) [
  | panicked ↦ panicked
  | returned rest ↦ returned (some i ∷ rest)
]

-- A slice of zero instances, which are `none`.
unfoldable pub zeros : ℕ → List (Option Instance)
zeros zero = []
zeros (suc n) = none ∷ zeros n

unfoldable seek_each : {S : Type 0} → (Instance → S → S) → List Instance → S → S
seek_each consumer [] s = s
seek_each consumer (i ∷ is) s = seek_each consumer is (consumer i s)

module _ (maps : ConcurrentMapApi) where
  open maps use {values, size, remove}

  -- A map has as many values as its size says.
  pub record IsCounted : Type 1 where
    pub size-values : (V : Type 0) (m : maps.Map V) → length (values V m) ≡ size V m

  unfoldable pub cluster_remove_instance : Instance → Cluster maps → Outcome (Cluster maps)
  unfolding get_key
  cluster_remove_instance i c = elim (get_key i) [
    | panicked ↦ panicked
    | returned key ↦ returned (record c { repository = remove Instance key c.repository })
  ]

  -- `Seek`, with what its consumer does to a state.
  unfoldable pub seek : {S : Type 0} → (Instance → S → S) → Cluster maps → S → S
  unfolding seek_each
  seek consumer c s = seek_each consumer (values Instance c.repository) s

  unfoldable pub total_size : List (Cluster maps) → ℕ
  total_size [] = 0
  total_size (c ∷ cs) = size Instance c.repository + total_size cs

  unfoldable pub all_values : List (Cluster maps) → List Instance
  all_values [] = []
  all_values (c ∷ cs) = values Instance c.repository ++ all_values cs

  unfoldable pub find_all_instance : Service maps → Outcome (List (Option Instance))
  unfolding assign_all zeros total_size all_values
  find_all_instance s =
      let cs = values (Cluster maps) s.clusters in
      assign_all (all_values cs) (zeros (total_size cs))

  all_values-total_size :
      IsCounted → (cs : List (Cluster maps)) → length (all_values cs) ≡ total_size cs
  unfolding all_values total_size
  all_values-total_size laws [] = refl
  all_values-total_size laws (c ∷ cs) = omega (
    arith,
    length-append (values Instance c.repository) (all_values cs),
    laws.size-values Instance c.repository,
    all_values-total_size laws cs,
  )

  assign_all-zeros :
      (is : List Instance) → assign_all is (zeros (length is)) ≡ returned (map some is)
  unfolding assign_all zeros
  assign_all-zeros [] = refl
  assign_all-zeros (i ∷ is) = rw (assign_all-zeros is) refl

  -- Where maps count what they have, findAllInstance returns the instances of all clusters, one after
  -- the other, and neither panics nor leaves a zero instance.
  pub find_all_instance_lem :
      IsCounted
      → (s : Service maps)
      → find_all_instance s ≡ returned (map some (all_values (values (Cluster maps) s.clusters)))
  unfolding find_all_instance
  find_all_instance_lem laws s =
      let cs = values (Cluster maps) s.clusters in
      ap (λ n. assign_all (all_values cs) (zeros n)) (sym (all_values-total_size laws cs))
      ∙ assign_all-zeros (all_values cs)
