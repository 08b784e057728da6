-- ===== src/Storage/KeyTree.antt =====
-- `keyTree` of server/storage/kv.go: an unbalanced binary search tree of nodes that are linked by
-- pointers. A node has one owner (its parent's `left` or `right`, or `root`), so the tree is a tree
-- of objects; a node keeps its address and the address that its `parent` field holds. `next` is
-- the next free address of the allocator. The mutex is held for the whole of each call.
pub mod Order
pub mod Growth
pub mod Without
pub mod Removal
pub mod Leaves
pub mod Walk
pub mod Relinking
pub mod Splice
pub mod Extremes
use Prim.Native.Nat.{Ordering}
use pole.Prelude.{
  ℕ, suc, ◌+◌, ◌-◌, ◌%◌, ◌^◌, Option, none, some, Text, str_compare, Outcome, returned, panicked,
}

pub record Node : Type 0 where
  pub addr : ℕ
  pub val : Text
  pub parent : Option ℕ

-- A pointer to a node, with the node's own `left` and `right`; `nil` is Go's.
pub data Tree : Type 0 where
  nil : Tree
  node : Node → Tree → Tree → Tree

pub record KeyTree : Type 0 where
  pub root : Tree
  pub size : ℕ  -- int64, as its 64 bits
  pub next : ℕ

abbrev pub int64_mod : ℕ
int64_mod = 2 ^ 64

unfoldable pub new_key_tree : ℕ → KeyTree
new_key_tree next = record { root = nil; size = 0; next = next }

unfoldable pub insert_val : ℕ → Text → Tree → Option ℕ → Tree
insert_val fresh v nil parent = node (record { addr = fresh; val = v; parent = parent }) nil nil
insert_val fresh v (node n l r) parent = elim (str_compare v n.val) [
  | Ordering.lt ↦ node n (insert_val fresh v l (some n.addr)) r
  | Ordering.gt ↦ node n l (insert_val fresh v r (some n.addr))
  | Ordering.eq ↦ node n l r
]

-- The third argument of the outer call is `kt.root`, which `insertVal` reads only if it is nil.
unfoldable pub insert : Text → KeyTree → KeyTree
unfolding insert_val
insert v kt = record {
  root = insert_val kt.next v kt.root none;
  size = (kt.size + 1) % int64_mod;
  next = suc kt.next;
}

unfoldable pub find_max_node : Tree → Tree
find_max_node nil = nil
find_max_node (node n nil nil) = node n nil nil
find_max_node (node n l r) = find_max_node l

unfoldable pub find_min_node : Tree → Tree
find_min_node nil = nil
find_min_node (node n nil nil) = node n nil nil
find_min_node (node n l r) = find_min_node l

unfoldable pub find_max : KeyTree → Tree
unfolding find_max_node
find_max kt = find_max_node kt.root

unfoldable pub find_min : KeyTree → Tree
unfolding find_min_node
find_min kt = find_min_node kt.root

unfoldable pub find_nearby_right : Text → KeyTree → Tree
unfolding find_max_node
find_nearby_right v kt = find_max_node kt.root

-- The branch `v <= root.val` over `root.left`; `deeper` is the recursive call on it.
unfoldable pub nearby_left_of : Text → Tree → Tree → Tree → Tree
nearby_left_of v root nil deeper = root
nearby_left_of v root (node m a b) deeper = elim (str_compare v m.val) [
  | Ordering.gt ↦ node m a b
  | _ ↦ deeper
]

unfoldable pub find_nearby_left_node : Text → Tree → Tree
unfolding nearby_left_of
find_nearby_left_node v nil = nil
find_nearby_left_node v (node n l r) = elim (str_compare v n.val) [
  | Ordering.gt ↦ find_nearby_left_node v r
  | _ ↦ nearby_left_of v (node n l r) l (find_nearby_left_node v l)
]

unfoldable pub find_nearby_left : Text → KeyTree → Tree
unfolding find_nearby_left_node
find_nearby_left v kt = find_nearby_left_node v kt.root

-- `object` is the node that `root` pointed to when the call began, as the call leaves it;
-- `result` is the pointer that the call returns.
pub record Deletion : Type 0 where
  pub object : Tree
  pub result : Outcome Tree

abbrev pub done : Tree → Deletion
done t = record { object = t; result = returned t }

abbrev pub crash : Tree → Deletion
crash t = record { object = t; result = panicked }

abbrev pub set_parent : Node → ℕ → Node
set_parent m a = record m { parent = some a }

-- `root.left = kt.deleteVal(v, root.left); root.left.parent = root`
unfoldable pub relink_left : Node → Tree → Deletion → Deletion
relink_left n r d = elim d.result [
  | returned nil ↦ crash (node n nil r)
  | returned (node m a b) ↦ done (node n (node (set_parent m n.addr) a b) r)
  | panicked ↦ crash (node n d.object r)
]

-- `root.right = kt.deleteVal(v, root.right); root.right.parent = root`
unfoldable pub relink_right : Node → Tree → Deletion → Deletion
relink_right n l d = elim d.result [
  | returned nil ↦ crash (node n l nil)
  | returned (node m a b) ↦ done (node n l (node (set_parent m n.addr) a b))
  | panicked ↦ crash (node n l d.object)
]

-- Both children: `rMin := kt.findMinNode(root.right)` and what follows.
unfoldable pub replace_by_min : Node → Tree → Tree → Tree → (Text → Deletion) → Deletion
replace_by_min n l r nil delete_in_right = crash (node n l r)
replace_by_min n l r (node m a b) delete_in_right =
    let n' : Node = record n { val = m.val } in
    let d : Deletion = delete_in_right m.val in
    elim d.result [ returned t ↦ done (node n' l t) | panicked ↦ crash (node n' l d.object) ]

-- `tmpCell`, after its three fields are set to nil.
abbrev pub cut : Node → Tree
cut n = node (record n { parent = none }) nil nil

-- The branches for `v == root.val`.
unfoldable pub delete_here : Node → Tree → Tree → (Text → Deletion) → Deletion
unfolding find_min_node replace_by_min
delete_here n nil r delete_in_right = record { object = cut n; result = returned r }
delete_here n (node m a b) nil delete_in_right = done (cut n)
delete_here n (node m a b) (node k c d) delete_in_right =
    replace_by_min n (node m a b) (node k c d) (find_min_node (node k c d)) delete_in_right

unfoldable pub delete_val : Text → Tree → Deletion
unfolding relink_left relink_right delete_here
delete_val v nil = done nil
delete_val v (node n l r) = elim (str_compare v n.val) [
  | Ordering.lt ↦ relink_left n r (delete_val v l)
  | Ordering.gt ↦ relink_right n l (delete_val v r)
  | Ordering.eq ↦ delete_here n l r (λ w. delete_val w r)
]

-- `Delete` drops the returned pointer, so `kt.root` still points to the object.
unfoldable pub finish_delete : KeyTree → Deletion → KeyTree × Outcome (Unit {0})
finish_delete kt d = elim d.result [
  | returned _ ↦
      (record kt { root = d.object; size = (kt.size + (int64_mod - 1)) % int64_mod }, returned tt)
  | panicked ↦ (record kt { root = d.object }, panicked)
]

unfoldable pub delete : Text → KeyTree → KeyTree × Outcome (Unit {0})
unfolding delete_val finish_delete
delete v kt = finish_delete kt (delete_val v kt.root)
