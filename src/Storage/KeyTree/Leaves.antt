-- ===== src/Storage/KeyTree/Leaves.antt =====
-- `Delete` of a key that stands at a leaf.
use pole.Prelude.{◌≡◌, ◌≢◌, refl, sym, ap, ◌∙◌, inl, inr, [], ◌∷◌, ◌++◌, arith, Text, panicked}
use pole.Prelude.Strings.{str_compare_cases, eq_of_str_compare}
use pole.Storage.KeyTree.{Node, Tree, nil, node, KeyTree, delete}
use pole.Storage.KeyTree.Order.{IsSearchTree, keys}
use pole.Storage.KeyTree.Without.{without, without-keys_left, without-keys_right, without-keys_here}
use pole.Storage.KeyTree.Removal.{descend, prune, delete_val-leaf, delete-of_crash}

keys-prune_here :
    (v : Text) (n m : Node) (l r : Tree)
    → node n l r ≡ node m nil nil
    → v ≡ n.val
    → IsSearchTree (node n l r)
    → [] ≡ without v (keys (node n l r))
unfolding keys
keys-prune_here v n m nil nil e same h = sym (without-keys_here v n nil nil h same)
keys-prune_here v n m nil (node k c d) e same h = cc
keys-prune_here v n m (node k c d) r e same h = cc

keys-prune :
    (v : Text) (t : Tree) (m : Node)
    → IsSearchTree t
    → descend v t ≡ node m nil nil
    → keys (prune v t) ≡ without v (keys t)
unfolding descend prune keys
keys-prune v nil m h e = cc
keys-prune v (node n l r) m h e = elim (str_compare_cases v n.val) [
  | inl c ↦
      rw (c, prune)
        (ap (λ z. z ++ n.val ∷ keys r) (keys-prune v l m h.2 (ground arith))
          ∙ sym (without-keys_left v n l r h c))
  | inr (inl (c, same)) ↦ rw (c, prune) (keys-prune_here v n m l r (ground arith) same h)
  | inr (inr (c, above)) ↦
      rw (c, prune)
        (ap (λ z. keys l ++ n.val ∷ z) (keys-prune v r m h.3 (ground arith))
          ∙ sym (without-keys_right v n l r h above))
]

-- `Delete` of a key at a leaf below the root of a search tree panics. By then the leaf is unlinked,
-- the other keys are still there, and the size is not counted down.
pub delete-leaf :
    (v : Text) (kt : KeyTree) (m n : Node) (l r : Tree)
    → IsSearchTree kt.root
    → kt.root ≡ node n l r
    → v ≢ n.val
    → descend v kt.root ≡ node m nil nil
    → ((delete v kt).1 ≡ panicked)
      × (keys (delete v kt).0.root ≡ without v (keys kt.root))
      × ((delete v kt).0.size ≡ kt.size)
delete-leaf v kt m n l r h e ne d = elim (delete_val-leaf v kt.root m d) [
  | inl (top, _, _) ↦ absurd (ne (eq_of_str_compare v n.val (rw e at top)))
  | inr c ↦ rw (delete-of_crash v kt (prune v kt.root) c) (refl, keys-prune v kt.root m h d, refl)
]
