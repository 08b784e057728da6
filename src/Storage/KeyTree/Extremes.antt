-- ===== src/Storage/KeyTree/Extremes.antt =====
-- `FindMin`, `FindMax`, `FindNearbyLeft` and `FindNearbyRight` on the tree.
use pole.Prelude.{◌≡◌, refl, ◌⊎◌, inl, inr, arith, Text, Before}
use pole.Prelude.Strings.{Before-trans, str_compare_flip}
use pole.Storage.KeyTree.{
  Node, Tree, nil, node, KeyTree, find_max_node, find_min_node, find_max, find_min,
  find_nearby_right, nearby_left_of, find_nearby_left_node,
}
use pole.Storage.KeyTree.Order.{AllNodes, KeysBefore, IsSearchTree, AllNodes-map}

-- The end of the left spine, where a search tree keeps its least key.
unfoldable pub leftmost : Tree → Tree
leftmost nil = nil
leftmost (node n nil r) = node n nil r
leftmost (node n l r) = leftmost l

unfoldable pub leaf_or_nil : Tree → Tree
leaf_or_nil (node n nil nil) = node n nil nil
leaf_or_nil _ = nil

-- `findMinNode` finds the end of the left spine if that is a leaf, and nil if it has a right child.
pub find_min_node-leftmost : (t : Tree) → find_min_node t ≡ leaf_or_nil (leftmost t)
unfolding find_min_node leftmost leaf_or_nil
find_min_node-leftmost nil = refl
find_min_node-leftmost (node n nil nil) = refl
find_min_node-leftmost (node n nil (node k c d)) = refl
find_min_node-leftmost (node n (node m a b) nil) = find_min_node-leftmost (node m a b)
find_min_node-leftmost (node n (node m a b) (node k c d)) = find_min_node-leftmost (node m a b)

-- The first key of the tree is at `m`.
abbrev pub IsFirst : Node → Tree → Type 0
IsFirst m = AllNodes (λ k. (k ≡ m) ⊎ Before m.val k.val)

leftmost-AllNodes :
    (P : Node → Type 0) (t : Tree) (m : Node) (a b : Tree)
    → leftmost t ≡ node m a b
    → AllNodes P t
    → P m
unfolding leftmost
leftmost-AllNodes P nil m a b e h = cc
leftmost-AllNodes P (node n nil r) m a b e h = let same : n ≡ m = cc in rw same at (h.0)
leftmost-AllNodes P (node n (node k c d) r) m a b e h = leftmost-AllNodes P (node k c d) m a b e h.1

pub leftmost-IsFirst :
    (t : Tree) (m : Node) (a b : Tree) → IsSearchTree t → leftmost t ≡ node m a b → IsFirst m t
unfolding leftmost
leftmost-IsFirst nil m a b h e = cc
leftmost-IsFirst (node n nil r) m a b h e =
    let same : n ≡ m = cc in (inl same, tt, AllNodes-map r (λ k p. inr (rw same at p)) h.1)
leftmost-IsFirst (node n (node k c d) r) m a b h e =
    let first : Before m.val n.val = leftmost-AllNodes _ (node k c d) m a b e h.0 in
    (
      inr first,
      leftmost-IsFirst (node k c d) m a b h.2 e,
      AllNodes-map r (λ q p. inr (Before-trans m.val n.val q.val first p)) h.1,
    )

leaf_or_nil-leftmost :
    (t : Tree) (m : Node) (a b : Tree)
    → leaf_or_nil (leftmost t) ≡ node m a b
    → leftmost t ≡ node m a b
unfolding leaf_or_nil
leaf_or_nil-leftmost t m a b = go (leftmost t)
  where
    go : (s : Tree) → leaf_or_nil s ≡ node m a b → s ≡ node m a b
    go nil e = e
    go (node n nil nil) e = e
    go (node n nil (node k c d)) e = cc
    go (node n (node k c d) r) e = cc

-- What `FindMin` returns, if it is not nil, is the first node of the tree.
pub find_min-IsFirst :
    (kt : KeyTree) (m : Node) (a b : Tree)
    → IsSearchTree kt.root
    → find_min kt ≡ node m a b
    → IsFirst m kt.root
unfolding find_min
find_min-IsFirst kt m a b h e =
    leftmost-IsFirst kt.root m a b h
      (leaf_or_nil-leftmost kt.root m a b (rw (find_min_node-leftmost kt.root) at e))

find_max_node-eq-find_min_node : (t : Tree) → find_max_node t ≡ find_min_node t
unfolding find_max_node find_min_node
find_max_node-eq-find_min_node nil = refl
find_max_node-eq-find_min_node (node n nil nil) = refl
find_max_node-eq-find_min_node (node n nil (node k c d)) = refl
find_max_node-eq-find_min_node (node n (node m a b) nil) =
    find_max_node-eq-find_min_node (node m a b)
find_max_node-eq-find_min_node (node n (node m a b) (node k c d)) =
    find_max_node-eq-find_min_node (node m a b)

-- `FindMax`, and `FindNearbyRight` of any key, return what `FindMin` returns.
pub find_max-eq-find_min :
    (kt : KeyTree) (v : Text) → (find_max kt ≡ find_min kt) × (find_nearby_right v kt ≡ find_min kt)
unfolding find_max find_min find_nearby_right
find_max-eq-find_min kt v =
    (find_max_node-eq-find_min_node kt.root, find_max_node-eq-find_min_node kt.root)

-- Of a key above all keys of the tree, the nearest on the left is not found.
pub find_nearby_left_above :
    (v : Text) (t : Tree) → KeysBefore v t → find_nearby_left_node v t ≡ nil
unfolding find_nearby_left_node
find_nearby_left_above v nil h = refl
find_nearby_left_above v (node n l r) h =
    rw ((str_compare_flip n.val v).0 h.0, find_nearby_left_node) (find_nearby_left_above v r h.2)

-- What `findNearbyLeftNode` finds has a key before `v`, or it has no left child and its key is `v`
-- or after it.
pub find_nearby_left_node_lem :
    (v : Text) (t m_left m_right : Tree) (m : Node)
    → find_nearby_left_node v t ≡ node m m_left m_right
    → Before m.val v ⊎ ((m_left ≡ nil) × ¬ Before m.val v)
unfolding find_nearby_left_node nearby_left_of
find_nearby_left_node_lem v nil a b m e = cc
find_nearby_left_node_lem v (node n nil r) a b m e =
    ground (arith, str_compare_flip n.val v, find_nearby_left_node_lem v r a b m)
find_nearby_left_node_lem v (node n (node k c d) r) a b m e = ground (
  arith,
  str_compare_flip n.val v,
  str_compare_flip k.val v,
  find_nearby_left_node_lem v r a b m,
  find_nearby_left_node_lem v (node k c d) a b m,
)
