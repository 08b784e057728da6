-- ===== src/Hashing/Examples.antt =====
-- Tests of the hash ring, and its theorems at concrete inputs.
use pole.Prelude.{
  ℕ, ◌≡◌, refl, true, none, some, [], ◌∷◌, arith, Text, codes, lookup, insert, get_elem?, returned,
  panicked,
}
use pole.Hashing.Crc32.{checksum_ieee}
use pole.Hashing.Search.{search, at_least, rank, search-rank}
use pole.Hashing.Ring.{ConsistentHash, new_consistent_hash, node_at, add_node, sort, get_node}
use pole.Hashing.Ring.Adding.{IsValid, add_node-IsValid, add_node_hangs, add_node_once}
use pole.Hashing.Ring.Lookup.{place_of, get_node_lem, get_node_empty}

abbrev a : Text
a = codes "a"

abbrev sum_of_a : ℕ
sum_of_a = 3904355907

abbrev lone : ConsistentHash
lone = record {
  sort_node = sum_of_a ∷ [];
  virtual_node_num = 1;
  node_map = (a, true) ∷ [];
  circle_map = (sum_of_a, a) ∷ [];
}

added : add_node 1 a (new_consistent_hash 1) ≡ some lone
unfolding add_node new_consistent_hash checksum_ieee lookup insert
added = refl

lone-IsValid : IsValid lone
unfolding node_at
lone-IsValid = record { ordered = (tt, tt); placed = ((a, refl), tt) }

search-rank_example : search 3 (at_least (10 ∷ 20 ∷ 30 ∷ []) 20) ≡ rank 20 (10 ∷ 20 ∷ 30 ∷ [])
search-rank_example = search-rank 20 (10 ∷ 20 ∷ 30 ∷ []) (omega arith)

add_node-IsValid_example : IsValid lone
unfolding new_consistent_hash
add_node-IsValid_example =
    add_node-IsValid 1 a (new_consistent_hash 1) lone (record { ordered = tt; placed = tt }) added

add_node_hangs_example : add_node 100 a (new_consistent_hash 2) ≡ none
unfolding new_consistent_hash lookup
add_node_hangs_example = add_node_hangs 100 a (new_consistent_hash 2) refl (omega arith)

add_node_once_example :
    (ch : ConsistentHash) × (add_node 1 a (new_consistent_hash 1) ≡ some ch)
    × (node_at (checksum_ieee a) ch.circle_map ≡ some a)
    × (ch.sort_node ≡ sort (checksum_ieee a ∷ []))
unfolding new_consistent_hash lookup node_at
add_node_once_example = add_node_once 0 a (new_consistent_hash 1) refl refl refl

get_node_lem_example :
    (p : ℕ) × (n : Text) × (get_elem? lone.sort_node
        (place_of (rank (checksum_ieee (codes "key")) lone.sort_node) 1)
      ≡ some p)
    × (node_at p lone.circle_map ≡ some n)
    × (get_node (codes "key") lone ≡ returned n)
get_node_lem_example = get_node_lem (codes "key") lone lone-IsValid (omega arith)

get_node_empty_example : get_node a (new_consistent_hash 3) ≡ panicked
unfolding new_consistent_hash
get_node_empty_example = get_node_empty a (new_consistent_hash 3) refl
