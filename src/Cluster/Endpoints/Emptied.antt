-- ===== src/Cluster/Endpoints/Emptied.antt =====
-- Which events of those that kubernetes sends change the members.
use pole.Prelude.{Bool, true, false, Option, none, some, List, [], ◌∷◌, ◌||◌, if◌then◌else◌}
use pole.Prelude.ConcurrentMaps.{ConcurrentMapApi, IsNilMap}
use pole.Cluster.Member.{Member}
use pole.Cluster.Endpoints.{EndpointSubset, only_subset}

abbrev names_nobody : Option EndpointSubset → Bool
names_nobody none = false
names_nobody (some x) = elim x.addresses [ [] ↦ true | _ ∷ _ ↦ false ]

-- Whether an event has exactly one subset, which has no address.
unfoldable pub is_emptying : List (Option (List EndpointSubset)) → Bool
is_emptying [] = false
is_emptying (e ∷ events) = names_nobody (only_subset e) || is_emptying events

module _ (maps : ConcurrentMapApi) (laws : IsNilMap maps) where
  abbrev left : Bool → maps.Map Member → maps.Map Member
  left emptied members = if emptied then maps.zero Member else members
