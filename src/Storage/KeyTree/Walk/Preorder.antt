-- ===== src/Storage/KeyTree/Walk/Preorder.antt =====
-- `Range` visits the nodes in preorder and stops at the first error.
use pole.Prelude.{◌≡◌, ◌≢◌, refl, Option, none, some, List, [], ◌∷◌, ◌++◌, arith}
use pole.Storage.KeyTree.{Node, Tree, nil, node, KeyTree}
use pole.Storage.KeyTree.Walk.{Visit, fine, failed, threw, range_val, range}

-- The nodes in the order of the walk: a node, then its left and its right subtree.
unfoldable pub preorder : Tree → List Node
preorder nil = []
preorder (node n l r) = n ∷ (preorder l ++ preorder r)

module _ {S E : Type 0} (call : S → Node → S × Visit E) where
  -- A loop over a list of nodes that stops at the first error.
  unfoldable pub visit_all : S → List Node → S × Option E
  visit_all s [] = (s, none)
  visit_all s (n ∷ ns) =
      let (s', out) = call s n in
      elim out [ threw ↦ (s', none) | failed e ↦ (s', some e) | fine ↦ visit_all s' ns ]

  abbrev resume : List Node → S × Option E → S × Option E
  resume ns (s, some e) = (s, some e)
  resume ns (s, none) = visit_all s ns

  module _ (quiet : (s : S) (n : Node) → (call s n).1 ≢ threw) where
    visit_all-append :
        (s : S) (xs ys : List Node) → visit_all s (xs ++ ys) ≡ resume ys (visit_all s xs)
    unfolding visit_all
    visit_all-append s [] ys = refl
    visit_all-append s (n ∷ xs) ys = ground (arith, quiet s n, visit_all-append (call s n).0 xs ys)

    range_val-eq-visit_all : (s : S) (t : Tree) → range_val call s t ≡ visit_all s (preorder t)
    unfolding range_val visit_all preorder
    range_val-eq-visit_all s nil = refl
    range_val-eq-visit_all s (node n l r) =
        let s' : S = (call s n).0 in
        ground (
          arith,
          quiet s n,
          range_val-eq-visit_all s' l,
          visit_all-append s' (preorder l) (preorder r),
          range_val-eq-visit_all (range_val call s' l).0 r,
        )

    -- With a visitor that does not panic, `Range` is the loop over the nodes in preorder.
    pub range-eq-visit_all :
        (s : S) (kt : KeyTree) → range call s kt ≡ visit_all s (preorder kt.root)
    unfolding range
    range-eq-visit_all s kt = range_val-eq-visit_all s kt.root
