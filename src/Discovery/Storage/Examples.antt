-- ===== src/Discovery/Storage/Examples.antt =====
-- The theorems on the storage of discovery at concrete inputs. Its storage on disk is an association
-- list that answers with errors; a message is a text that is marshalled as it is.
use pole.Prelude.{
  ◌≡◌, ◌≢◌, refl, sym, ap, ◌∙◌, Option, none, some, List, [], ◌∷◌, map, arith, All, Text, codes,
  Dict, lookup, insert, erase, lookup-insert, str_eq, returned, if◌then◌else◌,
}
use pole.Prelude.ListMaps.{lists, lists-IsNilMap}
use pole.Storage.Kv.{KvStorage, Result, ok, err, IsKv, assigned, assigned_ext}
use pole.Discovery.Storage.{Messages, StoredService, KvDiscoveryStorage, save_service, read_service}
use pole.Discovery.Storage.Services.{read_service-save_service}

abbrev absent : Text
absent = codes "Key cannot be empty"

abbrev found : Option Text → Result Text
found none = err (codes "Key not found")
found (some v) = ok v

abbrev get_value : Text → Dict Text → Result Text
get_value [] d = err absent
get_value (c ∷ k) d = found (lookup (c ∷ k) d)

abbrev and_rest : Result Text → Result (List Text) → Result (List Text)
and_rest (err e) rest = err e
and_rest (ok v) (err e) = err e
and_rest (ok v) (ok vs) = ok (v ∷ vs)

get_values : List Text → Dict Text → Result (List Text)
get_values [] d = ok []
get_values (k ∷ ks) d = and_rest (get_value k d) (get_values ks d)

put_values : List Text → List Text → Dict Text → Dict Text
put_values [] values d = d
put_values (k ∷ ks) [] d = d
put_values (k ∷ ks) (v ∷ vs) d = put_values ks vs (insert k v d)

abbrev dictionary : KvStorage
dictionary = record {
  State = Dict Text;
  read = λ k d. (returned (get_value k d), d);
  read_batch = λ ks d. (returned (get_values ks d), d);
  write = λ k v d. (returned none, insert k v d);
  write_batch = λ ks vs d. (returned none, put_values ks vs d);
  delete = λ k d. (returned none, erase k d);
  destroy = λ d. (returned none, d);
}

lookup-put_values :
    (ks vs : List Text) (d : Dict Text) (j : Text)
    → lookup j (put_values ks vs d) ≡ assigned ks vs (λ k. lookup k d) j
unfolding put_values assigned
lookup-put_values [] vs d j = refl
lookup-put_values (k ∷ ks) [] d j = refl
lookup-put_values (k ∷ ks) (v ∷ vs) d j =
    lookup-put_values ks vs (insert k v d) j
    ∙ assigned_ext ks vs (λ i. lookup i (insert k v d))
        (λ i. if str_eq k i then some v else lookup i d) j (λ i. lookup-insert k i v d)

get_values_lem :
    (ks vs : List Text) (d : Dict Text)
    → All (λ k. k ≢ []) ks
    → map (λ k. lookup k d) ks ≡ map some vs
    → get_values ks d ≡ ok vs
unfolding get_values
get_values_lem [] [] d filled e = refl
get_values_lem [] (v ∷ vs) d filled e = absurd (ground (arith, e))
get_values_lem (k ∷ ks) [] d filled e = absurd (ground (arith, e))
get_values_lem ([] ∷ ks) (v ∷ vs) d filled e = absurd (filled.0 refl)
get_values_lem ((c ∷ k) ∷ ks) (v ∷ vs) d filled e =
    let there : lookup (c ∷ k) d ≡ some v = ground (arith, e) in
    let rest = get_values_lem ks vs d filled.1 (ground (arith, e)) in rw (there, rest) refl

dictionary-IsKv : IsKv dictionary
unfolding get_values
dictionary-IsKv = record {
  contents = λ d k. lookup k d;
  empty_key = absent;
  contents-write_batch =
      λ ks vs d d' e j. ap (λ r. lookup j r.1) (sym e) ∙ lookup-put_values ks vs d j;
  read_batch-contents =
      λ ks vs d filled e. ap (λ r. (returned r, d)) (get_values_lem ks vs d filled e);
  read_batch-nil = λ d. refl;
}

abbrev or_nil : Option Text → Result Text
or_nil none = err (codes "nil")
or_nil (some v) = ok v

abbrev texts : Messages
texts = record {
  OriginService = Text;
  OriginCluster = Text;
  marshal_service = or_nil;
  marshal_cluster = or_nil;
  marshal_instance = λ i. ok i.ip;
  unmarshal_service = λ t. ok t;
  unmarshal_cluster = λ t. ok t;
}

abbrev service : StoredService texts lists
service = record { name = codes "s"; origin_service = some (codes "m"); clusters = none }

abbrev query : StoredService texts lists
query = record service { origin_service = none }

abbrev at_first : KvDiscoveryStorage texts lists dictionary dictionary
at_first = record { memory_kv = []; disk_kv = [] }

abbrev saved : KvDiscoveryStorage texts lists dictionary dictionary
saved = (save_service texts lists dictionary dictionary service at_first).1

read_service-save_service_example :
    read_service texts lists dictionary dictionary (query, saved)
    ≡ (returned (some absent), (record query { origin_service = some (codes "m") }, saved))
unfolding save_service dictionary-IsKv
read_service-save_service_example =
    read_service-save_service texts lists dictionary dictionary dictionary-IsKv service at_first
      (codes "m") (codes "m") refl refl refl lists-IsNilMap query refl (λ e. ground (arith, e)) refl
