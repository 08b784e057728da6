-- ===== src/Discovery/Services.antt =====
-- `ServiceManager` of server/discovery/discovery_core.go, with the services and clusters of
-- discovery_model.go. A service and its clusters are reached through one map each, so the objects
-- behind the pointers are the entries of these maps.
use pole.Prelude.{
  ℕ, Bool, true, false, Option, none, some, Text, codes, Outcome, returned, panicked, if◌then◌else◌,
}
use pole.Discovery.Model.{
  CInstanceType, c_instance_un_know, c_instance_persist, c_instance_temporary, Instance,
  parse_cluster_name, get_key, c_instance_type_of,
}
use pole.Prelude.ConcurrentMaps.{ConcurrentMapApi}

-- What `sink.Send` sends.
pub record Response : Type 0 where
  pub code : ℕ
  pub msg : Text

abbrev pub success : Response
success = record { code = 200; msg = codes "success" }

abbrev pub failure : Text → Response
failure msg = record { code = 500; msg = msg }

abbrev pub mixed_types : Text
mixed_types = codes "A service can only be a persistent or non-persistent instance"

unfoldable pub same_type : CInstanceType → CInstanceType → Bool
same_type c_instance_un_know c_instance_un_know = true
same_type c_instance_persist c_instance_persist = true
same_type c_instance_temporary c_instance_temporary = true
same_type _ _ = false

-- `t != CInstanceUnKnow && t != type of the instance`
unfoldable pub is_conflict : CInstanceType → Instance → Bool
unfolding same_type c_instance_type_of
is_conflict t i =
    if same_type t c_instance_un_know
    then false
    else if same_type t (c_instance_type_of i)
    then false
    else true

module _ (maps : ConcurrentMapApi) where
  open maps use {Map, zero, get, put, remove}

  pub record Cluster : Type 0 where
    pub name : Text
    pub instance_type : CInstanceType
    pub repository : Map Instance

  pub record Service : Type 0 where
    pub name : Text
    pub service_name : Text
    pub group : Text
    pub clusters : Map Cluster

  -- `Cluster.FindInstance`; `none` is the error.
  unfoldable pub find_instance : Text → Cluster → Option Instance
  find_instance key c = get Instance key c.repository

  -- `Service.findOneInstance`: a missing cluster is a nil interface, whose assertion panics.
  unfoldable pub find_one_instance : Text → Text → Service → Outcome (Option Instance)
  unfolding find_instance
  find_one_instance cluster_name key s = elim (get Cluster cluster_name s.clusters) [
    | none ↦ panicked
    | some c ↦ returned (find_instance key c)
  ]

  -- `Service.addInstance`
  unfoldable pub service_add_instance : Instance → Service → Outcome Service
  service_add_instance i s = elim (get Cluster i.origin_instance.cluster_name s.clusters) [
    | none ↦ panicked
    | some c ↦ elim (put Instance i.key i c.repository) [
      | panicked ↦ panicked
      | returned repository ↦
          elim (put Cluster i.origin_instance.cluster_name (record c { repository = repository })
            s.clusters) [
              | panicked ↦ panicked
              | returned clusters ↦ returned (record s { clusters = clusters })
            ]
    ]
  ]

  -- `Service.removeInstance`
  unfoldable pub service_remove_instance : Instance → Service → Outcome Service
  service_remove_instance i s = elim (get Cluster i.origin_instance.cluster_name s.clusters) [
    | none ↦ panicked
    | some c ↦
        elim (put Cluster i.origin_instance.cluster_name
          (record c { repository = remove Instance i.key c.repository }) s.clusters) [
            | panicked ↦ panicked
            | returned clusters ↦ returned (record s { clusters = clusters })
          ]
  ]

  -- `Cluster.addInstance`; `none` is the error for a mixture of types. The type is tested only while
  -- it is not known.
  unfoldable pub cluster_add_instance : Instance → Cluster → Outcome (Option Cluster)
  unfolding get_key same_type c_instance_type_of
  cluster_add_instance i c =
      let t : CInstanceType =
        if same_type c.instance_type c_instance_un_know
        then c_instance_type_of i
        else c.instance_type in
      elim (get_key i) [
        | panicked ↦ panicked
        | returned key ↦ elim (put Instance key i c.repository) [
          | panicked ↦ panicked
          | returned repository ↦
              returned (some (record c { instance_type = t; repository = repository }))
        ]
      ]

  -- The cluster that `storeInstanceInfo` makes.
  unfoldable pub new_cluster : Text → Instance → Cluster
  unfolding c_instance_type_of
  new_cluster name i = record {
    name = name;
    instance_type = c_instance_type_of i;
    repository = zero Instance;
  }

  -- The cluster to register in, and the service with it: `Get` under the composed name, `Put` under
  -- the plain one.
  unfoldable pub open_cluster : Instance → Service → Outcome (Cluster × Service)
  unfolding new_cluster parse_cluster_name
  open_cluster i s =
      let name : Text = parse_cluster_name s.name i.origin_instance.cluster_name in
      elim (get Cluster name s.clusters) [
        | some c ↦ returned (c, s)
        | none ↦ elim (put Cluster i.origin_instance.cluster_name (new_cluster name i) s.clusters) [
          | panicked ↦ panicked
          | returned clusters ↦ returned (new_cluster name i, record s { clusters = clusters })
        ]
      ]
