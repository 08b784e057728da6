-- ===== src/Hashing/Ring.antt =====
-- `ConsistentHash` of utils/consistency.go. Each call holds the ring's lock.
pub mod Adding
pub mod Lookup
use pole.Prelude.{
  ℕ, zero, suc, ◌+◌, ◌-◌, ◌<◌, ◌≡◌, refl, Bool, true, false, Option, none, some, List, [], ◌∷◌,
  ◌++◌, map, arith, Text, str_eq, Dict, lookup, insert, erase, Outcome, returned, panicked, ◌==◌,
  leb, ltb, if◌then◌else◌, length, get_elem?,
}
use mathlib.Core.Option
use pole.Hashing.Crc32.{checksum_ieee}
use pole.Hashing.Search.{search, at_least}

-- `map[uint32]string`
abbrev pub Circle : Type 0
Circle = List (ℕ × Text)

pub record ConsistentHash : Type 0 where
  pub sort_node : List ℕ
  pub virtual_node_num : ℕ  -- int32; a negative number adds no node, as 0 does
  pub node_map : Dict Bool
  pub circle_map : Circle

unfoldable pub new_consistent_hash : ℕ → ConsistentHash
new_consistent_hash n = record {
  sort_node = [];
  virtual_node_num = n;
  node_map = [];
  circle_map = [];
}

unfoldable pub node_at : ℕ → Circle → Option Text
node_at p [] = none
node_at p ((q, n) ∷ c) = if q == p then some n else node_at p c

-- `sort.Slice` by `<` on numbers.
unfoldable pub insert_number : ℕ → List ℕ → List ℕ
insert_number x [] = x ∷ []
insert_number x (y ∷ ys) = elim (leb x y) [ true ↦ x ∷ y ∷ ys | false ↦ y ∷ insert_number x ys ]

unfoldable pub sort : List ℕ → List ℕ
unfolding insert_number
sort [] = []
sort (x ∷ xs) = insert_number x (sort xs)

unfoldable pub sorted : ConsistentHash → ConsistentHash
unfolding sort
sorted ch = record ch { sort_node = sort ch.sort_node }

-- The body of the loop in which `AddNode` looks for a free position; `none` means that the fuel ran
-- out. The position is the same in every round.
unfoldable pub place : ℕ → Text → ConsistentHash → Option ConsistentHash
unfolding node_at
place zero n ch = none
place (suc fuel) n ch = elim (node_at (checksum_ieee n) ch.circle_map) [
  | none ↦ some (record ch {
    circle_map = (checksum_ieee n, n) ∷ ch.circle_map;
    sort_node = ch.sort_node ++ checksum_ieee n ∷ [];
  })
  | some _ ↦ place fuel n ch
]

-- for i := 0; i < ch.virtualNodeNum; i++
unfoldable pub place_all : ℕ → ℕ → Text → ConsistentHash → Option ConsistentHash
unfolding place
place_all fuel zero n ch = some ch
place_all fuel (suc k) n ch = elim (place fuel n ch) [
  | none ↦ none
  | some ch' ↦ place_all fuel k n ch'
]

unfoldable pub add_node : ℕ → Text → ConsistentHash → Option ConsistentHash
unfolding place_all sorted
add_node fuel n ch = elim (lookup n ch.node_map) [
  | some _ ↦ some (sorted ch)
  | none ↦
      Option.map sorted
        (place_all fuel ch.virtual_node_num n (record ch { node_map = insert n true ch.node_map }))
]

-- The entries of the circle for other nodes.
unfoldable pub others : Text → Circle → Circle
others n [] = []
others n ((p, m) ∷ c) = let rest = others n c in if str_eq m n then rest else (p, m) ∷ rest

abbrev pub positions : Circle → List ℕ
positions = map (λ e. e.0)

unfoldable pub remove_node : Text → ConsistentHash → ConsistentHash
unfolding others sorted
remove_node n ch = elim (lookup n ch.node_map) [
  | some _ ↦ ch
  | none ↦ sorted (record ch {
    node_map = erase n ch.node_map;
    circle_map = others n ch.circle_map;
    sort_node = positions (others n ch.circle_map);
  })
]

-- `ch.circleMap[ch.sortNode[p]]`; a missing key reads as the empty string.
unfoldable pub node_of : ConsistentHash → ℕ → Outcome Text
unfolding node_at
node_of ch p = elim (get_elem? ch.sort_node p) [
  | none ↦ panicked
  | some position ↦ elim (node_at position ch.circle_map) [
    | none ↦ returned []
    | some n ↦ returned n
  ]
]

-- The index that `GetNode` takes for the result of the search; on an empty ring it is -1, which no
-- slice has.
unfoldable pub pick : ℕ → ℕ → ℕ
pick position len =
    if ltb position len then (if position == len - 1 then 0 else position) else len - 1

unfoldable pub get_node : Text → ConsistentHash → Outcome Text
unfolding node_of pick search at_least checksum_ieee
get_node key ch =
    let len : ℕ = length ch.sort_node in
    node_of ch (pick (search len (at_least ch.sort_node (checksum_ieee key))) len)
