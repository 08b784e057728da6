-- ===== src/Discovery/Examples.antt =====
-- The theorems on the service manager at concrete inputs: its concurrent maps are association lists,
-- and its storage counts what it is given.
use pole.Prelude.{
  ℕ, ◌+◌, ◌≡◌, refl, arith, All, Outcome, List, none, some, [], ◌∷◌, Text, codes, lookup, str_eq,
  panicked,
}
use pole.Discovery.Model.{parse_service_name}
use pole.Prelude.ListMaps.{lists, lists-IsNilMap}
use pole.Discovery.Interfaces.{DiscoveryStorage}
use pole.Discovery.Services.{Cluster, Service}
use pole.Discovery.Manager.{
  ServiceManager, made, new_service, create_service_if_absent, find_service, add_instance,
  remove_instance,
}
use pole.Discovery.Refusals.{
  IsBare, IsFailure, Request, register, deregister, add_instance_lem, serve_all, serve_all_lem,
}
use pole.Discovery.Requests.{create_service_if_absent_lem, create_service_if_absent_twice}
use pole.Discovery.Deregistration.{remove_instance_panics}
use pole.Discovery.Samples.{origin, lessor}

-- A storage that counts what it saves.
abbrev counter : DiscoveryStorage
counter = record {
  State = ℕ;
  save_service = λ name n. (none, n + 1);
  save_instance = λ i n. (none, n + 1);
}

abbrev empty : ServiceManager lists counter
empty = record { services = []; less_holder = lessor; stored = 0; sent = [] }

abbrev name : Text
name = parse_service_name (codes "s") (codes "g")

-- A service whose map of clusters was made, and is empty.
abbrev prefixed : Service lists
prefixed = record { name = name; service_name = codes "s"; group = codes "g"; clusters = some [] }

abbrev with_service : Service lists → ServiceManager lists counter
with_service s = record empty { services = (codes "n", (name, s) ∷ []) ∷ [] }

unheld : lists.get (Cluster lists) (codes "c") prefixed.clusters ≡ none
unfolding lookup
unheld = refl

absent : find_service lists counter (codes "n") name empty ≡ none
unfolding find_service lookup
absent = refl

there : (s : Service lists) → find_service lists counter (codes "n") name (with_service s) ≡ some s
unfolding find_service lookup str_eq parse_service_name
there s = refl

create_service_if_absent_lem_example :
    ((create_service_if_absent lists counter (codes "n") (codes "s") (codes "g") empty).0
      ≡ made (new_service lists counter (codes "s") (codes "g")))
    × (find_service lists counter
          (codes "n")
          name
          (create_service_if_absent lists counter (codes "n") (codes "s") (codes "g") empty).1
        ≡ some (new_service lists counter (codes "s") (codes "g")))
create_service_if_absent_lem_example =
    create_service_if_absent_lem lists counter (codes "n") (codes "s") (codes "g") empty absent

create_service_if_absent_twice_example :
    create_service_if_absent lists counter
      (codes "n")
      (codes "s")
      (codes "g")
      (create_service_if_absent lists counter (codes "n") (codes "s") (codes "g") empty).1
    ≡ create_service_if_absent lists counter (codes "n") (codes "s") (codes "g") empty
create_service_if_absent_twice_example =
    create_service_if_absent_twice lists counter (codes "n") (codes "s") (codes "g") empty absent
      refl

empty-IsBare : IsBare lists lists-IsNilMap counter empty
unfolding find_service lookup
empty-IsBare = record { bare = λ ns name s e. absurd (ground (arith, e)) }

abbrev added : Outcome (Unit {0}) × ServiceManager lists counter
added = add_instance lists counter 5 (codes "n") origin empty

add_instance_lem_example :
    (added.0 ≡ panicked)
    × (added.1.sent ≡ [])
    × (added.1.stored ≡ 1)
    × (added.1.less_holder ≡ lessor)
    × IsBare lists lists-IsNilMap counter added.1
unfolding find_service lookup
add_instance_lem_example =
    add_instance_lem lists lists-IsNilMap counter 5 (codes "n") origin empty empty-IsBare

abbrev requests : List Request
requests =
    register 5 (codes "n") origin
    ∷ register 6 (codes "n") origin
    ∷ deregister (codes "n") origin
    ∷ deregister (codes "m") origin
    ∷ []

serve_all_lem_example :
    All (IsFailure lists lists-IsNilMap counter) (serve_all lists counter requests empty).sent
    × ((serve_all lists counter requests empty).less_holder ≡ lessor)
    × IsBare lists lists-IsNilMap counter (serve_all lists counter requests empty)
serve_all_lem_example = serve_all_lem lists lists-IsNilMap counter requests empty empty-IsBare tt

remove_instance_panics_example :
    remove_instance lists counter (codes "n") origin (with_service prefixed)
    ≡ (panicked, with_service prefixed)
remove_instance_panics_example =
    remove_instance_panics lists counter (codes "n") origin prefixed (with_service prefixed)
      (there prefixed) unheld
