-- ===== src/Storage/Examples.antt =====
-- Tests of the storage, and its theorems at concrete inputs.
use pole.Prelude.{
  ℕ, ◌+◌, ◌%◌, ◌≡◌, ◌⊎◌, refl, inr, Option, none, some, [], ◌∷◌, map, true, false, arith, Text,
  codes, str_compare, str_eq, Before, panicked,
}
use pole.Storage.KeyTree.{
  Node, Tree, nil, node, KeyTree, int64_mod, new_key_tree, insert, find_min, find_nearby_left,
  find_nearby_left_node, delete,
}
use pole.Storage.KeyTree.Order.{IsValid, keys, insert_sorted, insert-IsValid, keys-insert}
use pole.Storage.KeyTree.Growth.{grow, grow-new_key_tree}
use pole.Storage.KeyTree.Extremes.{
  leftmost, leaf_or_nil, IsFirst, find_min_node-leftmost, find_min-IsFirst, find_nearby_left_above,
  find_nearby_left_node_lem,
}
use pole.Storage.KeyTree.Removal.{descend, delete-absent}
use pole.Storage.KeyTree.Leaves.{delete-leaf}
use pole.Storage.KeyTree.Without.{without}
use pole.Storage.KeyTree.Splice.{delete-removes, delete-root}
use pole.Storage.KeyTree.Walk.{Visit, fine, failed, seek_level, range}
use pole.Storage.KeyTree.Walk.Levels.{levels}
use pole.Storage.KeyTree.Walk.Queue.{seek_level-eq-levels}
use pole.Storage.KeyTree.Walk.Preorder.{preorder, visit_all, range-eq-visit_all}

abbrev node_5 : Node
node_5 = record { addr = 0; val = codes "5"; parent = none }

abbrev node_3 : Node
node_3 = record { addr = 1; val = codes "3"; parent = some 0 }

abbrev node_8 : Node
node_8 = record { addr = 2; val = codes "8"; parent = some 0 }

abbrev node_9 : Node
node_9 = record { addr = 3; val = codes "9"; parent = some 2 }

abbrev left_of_5 : Tree
left_of_5 = node node_3 nil nil

abbrev right_of_5 : Tree
right_of_5 = node node_8 nil (node node_9 nil nil)

--   5
--  / \
-- 3   8
--      \
--       9
abbrev drawn : KeyTree
drawn = record { root = node node_5 left_of_5 right_of_5; size = 4; next = 4 }

drawn_grown : grow (map codes ("5" ∷ "3" ∷ "8" ∷ "9" ∷ [])) (new_key_tree 0) ≡ drawn
unfolding grow new_key_tree str_compare
drawn_grown = refl

drawn-IsValid : IsValid drawn
unfolding str_compare
drawn-IsValid = ground arith

insert-IsValid_example : IsValid (insert (codes "6") drawn)
insert-IsValid_example = insert-IsValid (codes "6") drawn drawn-IsValid

keys-insert_example :
    keys (insert (codes "6") drawn).root ≡ insert_sorted (codes "6") (keys drawn.root)
keys-insert_example = keys-insert (codes "6") drawn drawn-IsValid

grow-new_key_tree_example :
    (grow (map codes ("5" ∷ "5" ∷ [])) (new_key_tree 0)).size % int64_mod ≡ 2 % int64_mod
grow-new_key_tree_example = (grow-new_key_tree (map codes ("5" ∷ "5" ∷ [])) 0).2

abbrev key_of : Tree → Option Text
key_of nil = none
key_of (node n l r) = some n.val

nearby_left_of_5 : key_of (find_nearby_left (codes "5") drawn) ≡ some (codes "3")
unfolding find_nearby_left str_compare
nearby_left_of_5 = refl

-- 5 is to the left of 7, but 8 is what is found.
nearby_left_of_7 : key_of (find_nearby_left (codes "7") drawn) ≡ some (codes "8")
unfolding find_nearby_left str_compare
nearby_left_of_7 = refl

find_min_node-leftmost_example : find_min drawn ≡ leaf_or_nil (leftmost drawn.root)
unfolding find_min
find_min_node-leftmost_example = find_min_node-leftmost drawn.root

find_min-IsFirst_example : IsFirst node_3 drawn.root
unfolding find_min
find_min-IsFirst_example = find_min-IsFirst drawn node_3 nil nil drawn-IsValid.ordered refl

find_nearby_left_above_example : find_nearby_left_node (codes "90") drawn.root ≡ nil
unfolding str_compare
find_nearby_left_above_example =
    find_nearby_left_above (codes "90") drawn.root
      (refl, (refl, tt, tt), (refl, tt, (refl, tt, tt)))

find_nearby_left_node_lem_example :
    Before (codes "3") (codes "5") ⊎ (◌≡◌ {A = Tree} nil nil × ¬ Before (codes "3") (codes "5"))
unfolding find_nearby_left_node str_compare
find_nearby_left_node_lem_example =
    find_nearby_left_node_lem (codes "5") drawn.root nil nil node_3 refl

delete-absent_example : delete (codes "6") drawn ≡ (drawn, panicked)
delete-absent_example = delete-absent (codes "6") drawn node_5 left_of_5 right_of_5 refl (
  λ e. ground arith,
  (λ e. ground arith, tt, tt),
  (λ e. ground arith, tt, (λ e. ground arith, tt, tt)),
)

delete-leaf_example : (delete (codes "3") drawn).1 ≡ panicked
unfolding descend str_compare
delete-leaf_example =
    (delete-leaf (codes "3") drawn node_3 node_5 left_of_5 right_of_5 drawn-IsValid.ordered refl
      (λ e. ground arith) refl).0

delete-removes_example :
    keys (delete (codes "8") drawn).0.root ≡ without (codes "8") (keys drawn.root)
unfolding descend str_compare
delete-removes_example = (delete-removes (codes "8") drawn drawn-IsValid (λ e. cc) tt).2

abbrev stump : KeyTree
stump = record { root = node node_5 left_of_5 nil; size = 2; next = 4 }

delete-root_example : keys (delete (codes "5") stump).0.root ≡ codes "5" ∷ []
delete-root_example = (delete-root (codes "5") stump node_5 left_of_5 nil refl refl (inr refl)).0

seek_level-eq-levels_example : seek_level drawn ≡ some (levels drawn.root)
seek_level-eq-levels_example = seek_level-eq-levels drawn

drawn_levels : seek_level drawn ≡ some ((node_5 ∷ []) ∷ (node_3 ∷ node_8 ∷ []) ∷ (node_9 ∷ []) ∷ [])
unfolding seek_level
drawn_levels = refl

-- A visitor that counts, and stops at the key 8.
abbrev counting : ℕ → Node → ℕ × Visit Text
counting seen n = elim (str_eq n.val (codes "8")) [
  | true ↦ (seen, failed n.val)
  | false ↦ (seen + 1, fine)
]

range-eq-visit_all_example : range counting 0 drawn ≡ visit_all counting 0 (preorder drawn.root)
range-eq-visit_all_example = range-eq-visit_all counting (λ s n. ground arith) 0 drawn
