-- ===== src/Storage/KeyTree/Splice.antt =====
-- `Delete` of a key below the root, at a node that has only a right child, or two children of which
-- the right one is a leaf: the key goes, and the tree stays valid.
use pole.Prelude.{
  ℕ, ◌+◌, ◌-◌, ◌%◌, ◌≡◌, refl, ◌⊎◌, inl, inr, Option, none, some, [], ◌∷◌, arith, Text,
  str_compare_refl, returned,
}
use pole.Prelude.Strings.{str_compare_cases}
use pole.Storage.KeyTree.{
  Node, Tree, nil, node, KeyTree, int64_mod, delete_here, delete_val, delete,
}
use pole.Storage.KeyTree.Order.{IsSearchTree, IsLinked, IsValid, keys}
use pole.Storage.KeyTree.Without.{without}
use pole.Storage.KeyTree.Removal.{IsAtRoot, descend}
use pole.Storage.KeyTree.Relinking.{IsRemovable, Removal, at_left, at_right, at_here}

delete_val-Removal :
    (v : Text) (t : Tree) (p : Option ℕ)
    → IsSearchTree t
    → IsLinked p t
    → IsRemovable (descend v t)
    → Removal v t p
unfolding descend
delete_val-Removal v nil p h g x = absurd x
delete_val-Removal v (node n l r) p h g x = elim (str_compare_cases v n.val) [
  | inl e ↦
      at_left v n l r p e h g.2
        (delete_val-Removal v l (some n.addr) h.2 g.1 (rw (e, descend) at x)) g.0
  | inr (inl (e, _)) ↦ at_here v n l r p e h g.1 g.2 (rw (e, descend) at x)
  | inr (inr (e, above)) ↦
      at_right v n l r p e above h g.1
        (delete_val-Removal v r (some n.addr) h.3 g.2 (rw (e, descend) at x)) g.0
]

delete-of_Removal :
    (v : Text) (kt : KeyTree)
    → IsValid kt
    → ¬ IsAtRoot v kt.root
    → Removal v kt.root none
    → IsValid (delete v kt).0
      × ((delete v kt).1 ≡ returned tt)
      × (keys (delete v kt).0.root ≡ without v (keys kt.root))
      × ((delete v kt).0.size ≡ (kt.size + (int64_mod - 1)) % int64_mod)
unfolding delete
delete-of_Removal v kt h ne x = elim x.same [
  | inl top ↦ absurd (ne top)
  | inr (same, linked) ↦
      rw (x.runs, same)
        (
          record {
            ordered = x.removes.ordered;
            linked = linked;
            below = x.removes.below kt.next h.below;
          },
          refl,
          x.removes.gone,
          refl,
        )
]

-- `Delete` of a key below the root of a valid tree, at a node with only a right child or with two
-- children of which the right one is a leaf: it returns, the tree stays valid and loses exactly
-- that key, and the size is counted down by one.
pub delete-removes :
    (v : Text) (kt : KeyTree)
    → IsValid kt
    → ¬ IsAtRoot v kt.root
    → IsRemovable (descend v kt.root)
    → IsValid (delete v kt).0
      × ((delete v kt).1 ≡ returned tt)
      × (keys (delete v kt).0.root ≡ without v (keys kt.root))
      × ((delete v kt).0.size ≡ (kt.size + (int64_mod - 1)) % int64_mod)
delete-removes v kt h ne x =
    delete-of_Removal v kt h ne (delete_val-Removal v kt.root none h.ordered h.linked x)

-- `Delete` of the root's key, where the root has one child at most, keeps that key and loses all
-- the others.
pub delete-root :
    (v : Text) (kt : KeyTree) (n : Node) (l r : Tree)
    → kt.root ≡ node n l r
    → v ≡ n.val
    → (l ≡ nil) ⊎ (r ≡ nil)
    → (keys (delete v kt).0.root ≡ v ∷ []) × ((delete v kt).1 ≡ returned tt)
unfolding delete delete_val delete_here keys
delete-root v kt n nil r e same one = rw (e, same) (ground (arith, str_compare_refl n.val))
delete-root v kt n (node m a b) nil e same one =
    rw (e, same) (ground (arith, str_compare_refl n.val))
delete-root v kt n (node m a b) (node k c d) e same one = ground arith
