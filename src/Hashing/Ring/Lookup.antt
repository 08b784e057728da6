-- ===== src/Hashing/Ring/Lookup.antt =====
-- `GetNode` and `RemoveNode`.
use pole.Prelude.{
  ℕ, zero, suc, ◌-◌, ◌<◌, ltb, ◌==◌, if◌then◌else◌, ◌≡◌, refl, true, some, List, [], ◌∷◌, arith,
  Text, lookup, returned, panicked, All, length, get_elem?,
}
use pole.Hashing.Crc32.{checksum_ieee}
use pole.Hashing.Search.{rank, search-rank}
use pole.Hashing.Ring.{ConsistentHash, node_at, node_of, pick, get_node, remove_node}
use pole.Hashing.Ring.Adding.{IsTaken, IsValid}

get_elem?-All :
    (P : ℕ → Type 0) (xs : List ℕ) (i : ℕ)
    → All P xs
    → i < length xs
    → (x : ℕ) × (get_elem? xs i ≡ some x) × P x
get_elem?-All P [] i h lt = absurd (omega arith)
get_elem?-All P (x ∷ xs) zero h lt = (x, refl, h.0)
get_elem?-All P (x ∷ xs) (suc i) h lt = get_elem?-All P xs i h.1 (omega arith)

pick-lt : (position len : ℕ) → 0 < len → pick position len < len
unfolding pick
pick-lt position len h = ground arith

-- Where the node of a key stands in a ring with `len` positions of which `r` are before the key.
abbrev pub place_of : ℕ → ℕ → ℕ
place_of r len = if ltb (suc r) len then r else if suc r == len then 0 else len - 1

pick-eq-place_of : (r len : ℕ) → pick r len ≡ place_of r len
unfolding pick
pick-eq-place_of r len = ground arith

-- On a valid ring with a node `GetNode` returns a node of the circle. Its position is the first one
-- at or after the key's checksum, unless that is the last position, where the first of all is
-- taken; past the last position the last is taken.
pub get_node_lem :
    (key : Text) (ch : ConsistentHash)
    → IsValid ch
    → 0 < length ch.sort_node
    → (p : ℕ) × (n : Text) × (get_elem? ch.sort_node
          (place_of (rank (checksum_ieee key) ch.sort_node) (length ch.sort_node))
        ≡ some p)
      × (node_at p ch.circle_map ≡ some n)
      × (get_node key ch ≡ returned n)
unfolding get_node node_of
get_node_lem key ch h pos =
    let code : ℕ = checksum_ieee key in
    let found = search-rank code ch.sort_node h.ordered in
    let at_index =
      get_elem?-All (IsTaken ch.circle_map) ch.sort_node
        (pick (rank code ch.sort_node) (length ch.sort_node)) h.placed
        (pick-lt (rank code ch.sort_node) (length ch.sort_node) pos) in
    (
      at_index.0,
      at_index.2.0,
      rw (← pick-eq-place_of (rank code ch.sort_node) (length ch.sort_node)) at_index.1,
      at_index.2.1,
      ground (arith, found, at_index.1, at_index.2.1),
    )

-- On an empty ring `GetNode` panics.
pub get_node_empty :
    (key : Text) (ch : ConsistentHash) → ch.sort_node ≡ [] → get_node key ch ≡ panicked
unfolding get_node node_of
get_node_empty key ch e = rw (e, get_node)

-- `RemoveNode` of a node that was added does not take it off the ring: every key gets the node that
-- it got before.
pub get_node-remove_node :
    (key n : Text) (ch : ConsistentHash)
    → lookup n ch.node_map ≡ some true
    → get_node key (remove_node n ch) ≡ get_node key ch
unfolding remove_node
get_node-remove_node key n ch e = rw (e, remove_node)
