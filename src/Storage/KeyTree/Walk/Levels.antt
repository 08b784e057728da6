-- ===== src/Storage/KeyTree/Walk/Levels.antt =====
-- The levels of a tree: the nodes at each depth, and how many there are.
use Prim.Native.Nat.{max}
use mathlib.Core.List.{append_assoc, append-nil}
use pole.Prelude.{
  ℕ, zero, suc, ◌+◌, ◌≤◌, ◌<◌, ◌≡◌, refl, sym, ap, ◌∙◌, List, [], ◌∷◌, ◌++◌, map, arith, length,
  length-append,
}
use pole.Storage.KeyTree.{Node, Tree, nil, node}
use pole.Storage.KeyTree.Walk.{Cell, cells, count}

-- The nodes at one depth, from left to right.
unfoldable pub layer : ℕ → Tree → List Cell
layer d nil = []
layer zero (node n l r) = cells (node n l r)
layer (suc d) (node n l r) = layer d l ++ layer d r

unfoldable pub height : Tree → ℕ
height nil = 0
height (node n l r) = suc (max (height l) (height r))

abbrev pub names : List Cell → List Node
names = map (λ c. c.at)

-- The `k` levels from depth `d` on.
unfoldable pub levels_from : ℕ → ℕ → Tree → List (List Node)
levels_from zero d t = []
levels_from (suc k) d t = names (layer d t) ∷ levels_from k (suc d) t

unfoldable pub levels : Tree → List (List Node)
unfolding levels_from height layer
levels t = levels_from (height t) 0 t

unfoldable pub children : List Cell → List Cell
children [] = []
children (p ∷ ps) = (cells p.left ++ cells p.right) ++ children ps

children-append : (xs ys : List Cell) → children (xs ++ ys) ≡ children xs ++ children ys
unfolding children
children-append [] ys = refl
children-append (p ∷ xs) ys =
    ap (◌++◌ (cells p.left ++ cells p.right)) (children-append xs ys)
    ∙ sym (append_assoc (cells p.left ++ cells p.right) (children xs) (children ys))

layer-zero : (t : Tree) → layer 0 t ≡ cells t
unfolding layer
layer-zero nil = refl
layer-zero (node n l r) = refl

pub children-layer : (d : ℕ) (t : Tree) → children (layer d t) ≡ layer (suc d) t
unfolding layer children
children-layer d nil = refl
children-layer zero (node n l r) =
    append-nil (cells l ++ cells r)
    ∙ sym (ap (λ z. z ++ layer 0 r) (layer-zero l) ∙ ap (◌++◌ (cells l)) (layer-zero r))
children-layer (suc d) (node n l r) =
    children-append (layer d l) (layer d r)
    ∙ ap (λ z. z ++ children (layer d r)) (children-layer d l)
    ∙ ap (◌++◌ (layer (suc d) l)) (children-layer d r)

pub layer-nil : (d : ℕ) (t : Tree) → height t ≤ d → layer d t ≡ []
unfolding layer height
layer-nil d nil h = refl
layer-nil zero (node n l r) h = absurd (omega arith)
layer-nil (suc d) (node n l r) h =
    ap (λ z. z ++ layer d r) (layer-nil d l (omega arith)) ∙ layer-nil d r (omega arith)

pub layer-length_pos : (d : ℕ) (t : Tree) → d < height t → 0 < length (layer d t)
unfolding layer height
layer-length_pos d nil h = absurd (omega arith)
layer-length_pos zero (node n l r) h = omega arith
layer-length_pos (suc d) (node n l r) h =
    ground
      (arith, length-append (layer d l) (layer d r), layer-length_pos d l, layer-length_pos d r)

-- The nodes of the `k` levels from depth `d` on.
unfoldable pub weight : ℕ → ℕ → Tree → ℕ
weight zero d t = 0
weight (suc k) d t = length (layer d t) + weight k (suc d) t

weight-zero-nil : (k d : ℕ) → weight k d nil ≡ 0
unfolding weight layer
weight-zero-nil zero d = refl
weight-zero-nil (suc k) d = omega (arith, weight-zero-nil k (suc d))

weight-node :
    (k d : ℕ) (n : Node) (l r : Tree) → weight k (suc d) (node n l r) ≡ weight k d l + weight k d r
unfolding weight layer
weight-node zero d n l r = omega arith
weight-node (suc k) d n l r =
    omega (arith, length-append (layer d l) (layer d r), weight-node k (suc d) n l r)

pub weight-count : (k : ℕ) (t : Tree) → height t ≤ k → weight k 0 t ≡ count t
unfolding weight layer height count
weight-count k nil h = weight-zero-nil k 0
weight-count zero (node n l r) h = absurd (omega arith)
weight-count (suc k) (node n l r) h =
    omega
      (arith, weight-node k 0 n l r, weight-count k l (omega arith), weight-count k r (omega arith))
