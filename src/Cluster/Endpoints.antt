-- ===== src/Cluster/Endpoints.antt =====
-- What `kubernetesMemberLookup` of server/cluster/member_lookup.go makes of the events that it watches, with
-- `MemberChange` as its observer. An event whose object is not an `Endpoints` is `none`.
pub mod Emptied
mod Examples
use pole.Prelude.{ℕ, Option, none, some, List, [], ◌∷◌, map, Text, Dict, insert}
use pole.Prelude.ConcurrentMaps.{ConcurrentMapApi}
use pole.Cluster.Member.{Member, healthy}
use pole.Cluster.Manager.{ServerClusterManager, member_change}

-- The host names of the addresses, and the ports by their names.
pub record EndpointSubset : Type 0 where
  pub addresses : List Text
  pub ports : List (Text × ℕ)

unfoldable pub ports_by_name : List (Text × ℕ) → Dict ℕ → Dict ℕ
ports_by_name [] ports = ports
ports_by_name ((name, port) ∷ rest) ports = ports_by_name rest (insert name port ports)

unfoldable pub endpoint_member : List (Text × ℕ) → Text → Member
unfolding ports_by_name
endpoint_member ports host = record {
  member_id = 0;
  identifier = [];
  ip = host;
  extension_ports = ports_by_name ports [];
  meta_data = [];
  status = healthy;
  access_fail_cnt = 0;
}

unfoldable pub endpoint_members : EndpointSubset → List Member
unfolding endpoint_member
endpoint_members x = map (endpoint_member x.ports) x.addresses

-- The one subset of an event; any other event is a panic, which is recovered and logged.
abbrev pub only_subset : Option (List EndpointSubset) → Option EndpointSubset
only_subset none = none
only_subset (some []) = none
only_subset (some (x ∷ [])) = some x
only_subset (some (x ∷ y ∷ xs)) = none

module _ (maps : ConcurrentMapApi) where
  -- A panic of the observer is recovered too.
  abbrev pub observe : Option EndpointSubset → ServerClusterManager maps → ServerClusterManager maps
  observe none s = s
  observe (some x) s = (member_change maps (map (λ m. some m) (endpoint_members x)) s).1

  unfoldable pub on_endpoints :
      Option (List EndpointSubset) → ServerClusterManager maps → ServerClusterManager maps
  unfolding member_change endpoint_members
  on_endpoints e s = observe (only_subset e) s

  -- The loop of `startListener`.
  unfoldable pub watch_endpoints :
      List (Option (List EndpointSubset)) → ServerClusterManager maps → ServerClusterManager maps
  unfolding on_endpoints
  watch_endpoints [] s = s
  watch_endpoints (e ∷ events) s = watch_endpoints events (on_endpoints e s)
