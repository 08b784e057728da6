-- ===== src/Storage/KeyTree/Relinking.antt =====
-- What a call of `deleteVal` on a subtree returns, where the key is at the root of the subtree or has been
-- removed from one of its children.
use Prim.Native.Nat.{Ordering}
use pole.Prelude.{
  ℕ, ◌≡◌, refl, sym, ap, ◌∙◌, ◌⊎◌, inl, inr, Option, some, ◌∷◌, ◌++◌, arith, Text, str_compare,
  str_compare_refl, Before, returned,
}
use pole.Prelude.Strings.{eq_of_str_compare, Before-trans}
use pole.Storage.KeyTree.{
  Node, Tree, nil, node, cut, set_parent, relink_left, relink_right, delete_here, delete_val,
}
use pole.Storage.KeyTree.Order.{
  AllNodes, AllNodes-map, AddrsBelow, IsSearchTree, IsLinked, keys, All-keys, AllNodes-keys,
}
use pole.Storage.KeyTree.Without.{
  without, without-All, without-keys_left, without-keys_right, without-keys_here,
}
use pole.Storage.KeyTree.Removal.{IsAtRoot}

-- The node at which a deletion works as meant.
abbrev pub IsRemovable : Tree → Type 0
IsRemovable (node n nil (node k c d)) = Unit
IsRemovable (node n (node m a b) (node k nil nil)) = Unit
IsRemovable _ = ⊥

-- `s` is `t` without `v`; the `parent` field of its root is left open.
pub record Removes (v : Text) (t s : Tree) : Type 0 where
  pub gone : keys s ≡ without v (keys t)
  pub ordered : IsSearchTree s
  pub below : (k : ℕ) → AddrsBelow k t → AddrsBelow k s

-- A node whose children point back to it, over the same keys and addresses as in `s`.
abbrev pub LinkedBelow : Tree → Type 0
LinkedBelow nil = ⊥
LinkedBelow (node m a b) = IsLinked (some m.addr) a × IsLinked (some m.addr) b

-- What a call on a subtree returns; further down than its root, the object is what is returned.
pub record Removal (v : Text) (t : Tree) (p : Option ℕ) : Type 0 where
  pub object : Tree
  pub result : Tree
  pub runs : delete_val v t ≡ record { object = object; result = returned result }
  pub same : IsAtRoot v t ⊎ ((object ≡ result) × IsLinked p result)
  pub removes : Removes v t result
  pub linked : LinkedBelow result

pub left_keys_bound :
    (v x : Text) (l s : Tree)
    → keys s ≡ without v (keys l)
    → AllNodes (λ m. Before m.val x) l
    → AllNodes (λ m. Before m.val x) s
left_keys_bound v x l s e h =
    AllNodes-keys (λ y. Before y x) s
      (rw e (without-All (λ y. Before y x) v (keys l) (All-keys (λ y. Before y x) l h)))

pub right_keys_bound :
    (v x : Text) (r s : Tree)
    → keys s ≡ without v (keys r)
    → AllNodes (λ m. Before x m.val) r
    → AllNodes (λ m. Before x m.val) s
right_keys_bound v x r s e h =
    AllNodes-keys (Before x) s (rw e (without-All (Before x) v (keys r) (All-keys (Before x) r h)))

pub at_left :
    (v : Text) (n : Node) (l r : Tree) (p : Option ℕ)
    → Before v n.val
    → IsSearchTree (node n l r)
    → IsLinked (some n.addr) r
    → Removal v l (some n.addr)
    → n.parent ≡ p
    → Removal v (node n l r) p
unfolding delete_val keys
at_left v n l r p b h lr x up = go x.result x.runs x.removes x.linked
  where
    go :
        (s : Tree)
        → delete_val v l ≡ record { object = x.object; result = returned s }
        → Removes v l s
        → LinkedBelow s
        → Removal v (node n l r) p
    go nil e g k = absurd k
    go (node m a c) e g k =
        let t : Tree = node n (node (set_parent m n.addr) a c) r in
        record {
          object = t;
          result = t;
          runs = rw (b, delete_val, e, relink_left);
          same = inr (refl, (up, (refl, k.0, k.1), lr));
          removes = record {
            gone = ap (λ z. z ++ n.val ∷ keys r) g.gone ∙ sym (without-keys_left v n l r h b);
            ordered = (left_keys_bound v n.val l (node m a c) g.gone h.0, h.1, g.ordered, h.3);
            below = λ j q. (q.0, g.below j q.1, q.2);
          };
          linked = ((refl, k.0, k.1), lr);
        }

pub at_right :
    (v : Text) (n : Node) (l r : Tree) (p : Option ℕ)
    → str_compare v n.val ≡ Ordering.gt
    → Before n.val v
    → IsSearchTree (node n l r)
    → IsLinked (some n.addr) l
    → Removal v r (some n.addr)
    → n.parent ≡ p
    → Removal v (node n l r) p
unfolding delete_val keys
at_right v n l r p b above h ll x up = go x.result x.runs x.removes x.linked
  where
    go :
        (s : Tree)
        → delete_val v r ≡ record { object = x.object; result = returned s }
        → Removes v r s
        → LinkedBelow s
        → Removal v (node n l r) p
    go nil e g k = absurd k
    go (node m a c) e g k =
        let t : Tree = node n l (node (set_parent m n.addr) a c) in
        record {
          object = t;
          result = t;
          runs = rw (b, delete_val, e, relink_right);
          same = inr (refl, (up, ll, (refl, k.0, k.1)));
          removes = record {
            gone = ap (λ z. keys l ++ n.val ∷ z) g.gone ∙ sym (without-keys_right v n l r h above);
            ordered = (h.0, right_keys_bound v n.val r (node m a c) g.gone h.1, h.2, g.ordered);
            below = λ j q. (q.0, q.1, g.below j q.2);
          };
          linked = (ll, (refl, k.0, k.1));
        }

at_right_only :
    (v : Text) (n k : Node) (c d : Tree) (p : Option ℕ)
    → str_compare v n.val ≡ Ordering.eq
    → IsSearchTree (node n nil (node k c d))
    → IsLinked (some n.addr) (node k c d)
    → Removal v (node n nil (node k c d)) p
unfolding delete_val delete_here keys
at_right_only v n k c d p e h g = record {
  object = cut n;
  result = node k c d;
  runs = rw (e, delete_val);
  same = inl e;
  removes = record {
    gone = sym (without-keys_here v n nil (node k c d) h (eq_of_str_compare v n.val e));
    ordered = h.3;
    below = λ j q. q.2;
  };
  linked = (g.1, g.2);
}

at_leaf_right :
    (v : Text) (n m k : Node) (a b : Tree) (p : Option ℕ)
    → str_compare v n.val ≡ Ordering.eq
    → IsSearchTree (node n (node m a b) (node k nil nil))
    → IsLinked (some n.addr) (node m a b)
    → Removal v (node n (node m a b) (node k nil nil)) p
unfolding delete_val delete_here keys
at_leaf_right v n m k a b p e h g =
    let n' : Node = record n { val = k.val } in
    let t : Tree = node n' (node m a b) nil in
    record {
      object = t;
      result = t;
      runs = ground (arith, str_compare_refl k.val);
      same = inl e;
      removes = record {
        gone =
            sym
              (without-keys_here v n (node m a b) (node k nil nil) h (eq_of_str_compare v n.val e));
        ordered = (
          AllNodes-map (node m a b) (λ j p. Before-trans j.val n.val k.val p h.1.0) h.0,
          tt,
          h.2,
          tt,
        );
        below = λ j q. (q.0, q.1, tt);
      };
      linked = (g, tt);
    }

pub at_here :
    (v : Text) (n : Node) (l r : Tree) (p : Option ℕ)
    → str_compare v n.val ≡ Ordering.eq
    → IsSearchTree (node n l r)
    → IsLinked (some n.addr) l
    → IsLinked (some n.addr) r
    → IsRemovable (node n l r)
    → Removal v (node n l r) p
at_here v n nil nil p e h ll lr x = absurd x
at_here v n nil (node k c d) p e h ll lr x = at_right_only v n k c d p e h lr
at_here v n (node m a b) nil p e h ll lr x = absurd x
at_here v n (node m a b) (node k nil nil) p e h ll lr x = at_leaf_right v n m k a b p e h ll
at_here v n (node m a b) (node k nil (node _ _ _)) p e h ll lr x = absurd x
at_here v n (node m a b) (node k (node _ _ _) d) p e h ll lr x = absurd x
