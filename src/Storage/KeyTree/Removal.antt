-- ===== src/Storage/KeyTree/Removal.antt =====
-- `Delete`: where it removes the key, where it panics, and where it loses other keys.
use Prim.Native.Nat.{Ordering}
use pole.Prelude.{
  ◌≡◌, ◌≢◌, refl, sym, ap, ◌∙◌, ◌⊎◌, inl, inr, arith, Text, str_compare, returned, panicked,
}
use pole.Prelude.Strings.{str_compare_cases}
use pole.Storage.KeyTree.{
  Node, Tree, nil, node, KeyTree, Deletion, done, crash, cut, delete_here, delete_val,
  finish_delete, delete,
}
use pole.Storage.KeyTree.Order.{AllNodes}

-- No node holds `v`.
abbrev pub IsAbsent : Text → Tree → Type 0
IsAbsent v = AllNodes (λ m. v ≢ m.val)

-- What the deletion of an absent key does.
abbrev missing : Tree → Deletion
missing nil = done nil
missing (node n l r) = crash (node n l r)

delete_val-absent : (v : Text) (t : Tree) → IsAbsent v t → delete_val v t ≡ missing t
unfolding delete_val
delete_val-absent v nil h = refl
delete_val-absent v (node n nil nil) h = elim (str_compare_cases v n.val) [
  | inl e ↦ rw (e, delete_val)
  | inr (inl (e, same)) ↦ absurd (h.0 same)
  | inr (inr (e, _)) ↦ rw (e, delete_val)
]
delete_val-absent v (node n nil (node k c d)) h = elim (str_compare_cases v n.val) [
  | inl e ↦ rw (e, delete_val)
  | inr (inl (e, same)) ↦ absurd (h.0 same)
  | inr (inr (e, _)) ↦ rw (e, delete_val, delete_val-absent v (node k c d) h.2)
]
delete_val-absent v (node n (node m a b) nil) h = elim (str_compare_cases v n.val) [
  | inl e ↦ rw (e, delete_val, delete_val-absent v (node m a b) h.1)
  | inr (inl (e, same)) ↦ absurd (h.0 same)
  | inr (inr (e, _)) ↦ rw (e, delete_val)
]
delete_val-absent v (node n (node m a b) (node k c d)) h = elim (str_compare_cases v n.val) [
  | inl e ↦ rw (e, delete_val, delete_val-absent v (node m a b) h.1)
  | inr (inl (e, same)) ↦ absurd (h.0 same)
  | inr (inr (e, _)) ↦ rw (e, delete_val, delete_val-absent v (node k c d) h.2)
]

pub delete-of_crash :
    (v : Text) (kt : KeyTree) (t : Tree)
    → delete_val v kt.root ≡ crash t
    → delete v kt ≡ (record kt { root = t }, panicked)
unfolding delete
delete-of_crash v kt t e = ap (finish_delete kt) e

-- `Delete` of a key that a nonempty tree does not hold panics, and leaves the tree as it was.
pub delete-absent :
    (v : Text) (kt : KeyTree) (n : Node) (l r : Tree)
    → kt.root ≡ node n l r
    → IsAbsent v kt.root
    → delete v kt ≡ (kt, panicked)
delete-absent v kt n l r e h =
    delete-of_crash v kt kt.root (delete_val-absent v kt.root h ∙ ap missing e ∙ ap crash (sym e))

-- The subtree that a search for `v` ends in.
unfoldable pub descend : Text → Tree → Tree
descend v nil = nil
descend v (node n l r) = elim (str_compare v n.val) [
  | Ordering.lt ↦ descend v l
  | Ordering.gt ↦ descend v r
  | Ordering.eq ↦ node n l r
]

-- The tree with the subtree at `v` dropped.
unfoldable pub prune : Text → Tree → Tree
prune v nil = nil
prune v (node n l r) = elim (str_compare v n.val) [
  | Ordering.lt ↦ node n (prune v l) r
  | Ordering.gt ↦ node n l (prune v r)
  | Ordering.eq ↦ nil
]

-- `v` is the key of the root.
abbrev pub IsAtRoot : Text → Tree → Type 0
IsAtRoot v nil = ⊥
IsAtRoot v (node n l r) = str_compare v n.val ≡ Ordering.eq

delete_here-leaf :
    (n : Node) (l r : Tree) (m : Node) (f : Text → Deletion)
    → node n l r ≡ node m nil nil
    → delete_here n l r f ≡ record { object = cut m; result = returned nil }
unfolding delete_here
delete_here-leaf n nil r m f e = cc
delete_here-leaf n (node k a b) r m f e = cc

-- A leaf: at the root of the subtree nil comes back; further down nil's `parent` is then written.
pub delete_val-leaf :
    (v : Text) (t : Tree) (m : Node)
    → descend v t ≡ node m nil nil
    → (IsAtRoot v t
        × (delete_val v t ≡ record { object = cut m; result = returned nil })
        × (prune v t ≡ nil))
      ⊎ (delete_val v t ≡ crash (prune v t))
unfolding delete_val descend prune
delete_val-leaf v nil m e = cc
delete_val-leaf v (node n l r) m e = elim (str_compare_cases v n.val) [
  | inl c ↦ elim (delete_val-leaf v l m (ground arith)) [
    | inl (_, d, p) ↦ inr (rw (c, delete_val, prune, d, p))
    | inr d ↦ inr (rw (c, delete_val, prune, d))
  ]
  | inr (inl (c, _)) ↦
      let same : node n l r ≡ node m nil nil = ground arith in
      inl
        (c, rw (c, delete_val) (delete_here-leaf n l r m (λ w. delete_val w r) same), ground arith)
  | inr (inr (c, _)) ↦ elim (delete_val-leaf v r m (ground arith)) [
    | inl (_, d, p) ↦ inr (rw (c, delete_val, prune, d, p))
    | inr d ↦ inr (rw (c, delete_val, prune, d))
  ]
]
