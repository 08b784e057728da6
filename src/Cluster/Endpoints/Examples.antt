-- ===== src/Cluster/Endpoints/Examples.antt =====
-- Events of kubernetes on which the theorem about them is applied.
use pole.Prelude.{none, some, List, Option, [], ◌∷◌, codes}
use pole.Prelude.ListMaps.{lists}
use pole.Cluster.Manager.{ServerClusterManager}
use pole.Cluster.Endpoints.{EndpointSubset}

abbrev subset : EndpointSubset
subset = record { addresses = codes "a" ∷ codes "b" ∷ []; ports = (codes "server-port", 80) ∷ [] }

abbrev nobody : EndpointSubset
nobody = record subset { addresses = [] }

abbrev events : List (Option (List EndpointSubset))
events = some (subset ∷ []) ∷ none ∷ some (subset ∷ subset ∷ []) ∷ []

abbrev manager : ServerClusterManager lists
manager = record { self = codes "a:80"; member_list = some []; published = [] }
