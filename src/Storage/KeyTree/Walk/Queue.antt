-- ===== src/Storage/KeyTree/Walk/Queue.antt =====
-- `SeekLevel` returns the levels of the tree, each from left to right, and its fuel is enough.
use Prim.Native.Nat.{max}
use Prim.Native.Nat.add
use native.Mathlib.Nat.{zero-add, add_assoc}
use mathlib.Core.Path.{ap₂}
use mathlib.Core.List.{append_assoc, append-nil}
use pole.Prelude.{
  ℕ, zero, suc, ◌+◌, ◌<◌, ◌≡◌, refl, sym, ap, ◌∙◌, some, List, [], ◌∷◌, ◌++◌, arith, length,
}
use pole.Storage.KeyTree.{Node, Tree, nil, node, KeyTree}
use pole.Storage.KeyTree.Walk.{Cell, cells, seek_loop, count, seek_from, seek_level}
use pole.Storage.KeyTree.Walk.Levels.{
  layer, height, names, levels_from, levels, children, children-layer, layer-nil, layer-length_pos,
  weight, weight-count,
}

seek_within :
    (fuel : ℕ) (ans : List (List Node)) (tmp : List Node) (p : Cell) (rest : List Cell) (k : ℕ)
    → seek_loop (suc fuel) ans tmp (p ∷ rest) (suc k)
      ≡ seek_loop fuel ans (tmp ++ p.at ∷ []) (rest ++ (cells p.left ++ cells p.right)) k
unfolding seek_loop
seek_within fuel ans tmp p rest k = ground arith

seek_next :
    (fuel : ℕ) (ans : List (List Node)) (tmp : List Node) (p : Cell) (rest : List Cell)
    → seek_loop (suc fuel) ans tmp (p ∷ rest) 0
      ≡ seek_loop (suc fuel) (ans ++ tmp ∷ []) [] (p ∷ rest) (length (p ∷ rest))
unfolding seek_loop
seek_next fuel ans tmp p rest = ground arith

-- One level: the queue holds what is left of it, and then the children seen so far.
sweep :
    (fuel : ℕ) (ans : List (List Node)) (tmp : List Node) (cur next : List Cell)
    → seek_loop (length cur + fuel) ans tmp (cur ++ next) (length cur)
      ≡ seek_loop fuel ans (tmp ++ names cur) (next ++ children cur) 0
unfolding children
sweep fuel ans tmp [] next = simp (append-nil, zero-add)
sweep fuel ans tmp (p ∷ cur) next =
    ap (λ k. seek_loop k ans tmp (p ∷ (cur ++ next)) (suc (length cur))) (add.suc (length cur) fuel)
    ∙ seek_within (length cur + fuel) ans tmp p (cur ++ next) (length cur)
    ∙ ap (λ q. seek_loop (length cur + fuel) ans (tmp ++ p.at ∷ []) q (length cur))
        (append_assoc cur next (cells p.left ++ cells p.right))
    ∙ sweep fuel ans (tmp ++ p.at ∷ []) cur (next ++ (cells p.left ++ cells p.right))
    ∙ ap₂ (λ x y. seek_loop fuel ans x y 0) (append_assoc tmp (p.at ∷ []) (names cur))
        (append_assoc next (cells p.left ++ cells p.right) (children cur))

-- A whole level.
sweep_layer :
    (fuel : ℕ) (ans : List (List Node)) (cur : List Cell)
    → seek_loop (length cur + fuel) ans [] cur (length cur)
      ≡ seek_loop fuel ans (names cur) (children cur) 0
sweep_layer fuel ans cur =
    ap (λ q. seek_loop (length cur + fuel) ans [] q (length cur)) (sym (append-nil cur))
    ∙ sweep fuel ans [] cur []

finish :
    (ans : List (List Node)) (tmp : List Node) (stack : List Cell)
    → stack ≡ []
    → seek_loop 1 ans tmp stack 0 ≡ some (ans ++ tmp ∷ [])
unfolding seek_loop
finish ans tmp stack e = rw e

enter :
    (fuel : ℕ) (ans : List (List Node)) (tmp : List Node) (cur : List Cell)
    → 0 < length cur
    → seek_loop (length cur + fuel) ans tmp cur 0
      ≡ seek_loop (length cur + fuel) (ans ++ tmp ∷ []) [] cur (length cur)
enter fuel ans tmp [] h = absurd (omega arith)
enter fuel ans tmp (p ∷ cur) h =
    ap (λ k. seek_loop k ans tmp (p ∷ cur) 0) (add.suc (length cur) fuel)
    ∙ seek_next (length cur + fuel) ans tmp p cur
    ∙ ap (λ k. seek_loop k (ans ++ tmp ∷ []) [] (p ∷ cur) (length (p ∷ cur)))
        (sym (add.suc (length cur) fuel))

-- The loop after depth `d`, with `tmp` the level just read and `k` levels to come.
descend_levels :
    (k d : ℕ) (ans : List (List Node)) (tmp : List Node) (t : Tree)
    → d + k ≡ height t
    → seek_loop (weight k d t + 1) ans tmp (layer d t) 0 ≡ some (ans ++ tmp ∷ levels_from k d t)
unfolding weight levels_from
descend_levels zero d ans tmp t e =
    ap (λ q. seek_loop q ans tmp (layer d t) 0) (zero-add 1)
    ∙ finish ans tmp (layer d t) (layer-nil d t (omega arith))
descend_levels (suc k) d ans tmp t e =
    let cur : List Cell = layer d t in
    let fuel : ℕ = weight k (suc d) t + 1 in
    ap (λ q. seek_loop q ans tmp cur 0) (add_assoc (length cur) (weight k (suc d) t) 1)
    ∙ enter fuel ans tmp cur (layer-length_pos d t (omega arith))
    ∙ sweep_layer fuel (ans ++ tmp ∷ []) cur
    ∙ ap (λ q. seek_loop fuel (ans ++ tmp ∷ []) (names cur) q 0) (children-layer d t)
    ∙ descend_levels k (suc d) (ans ++ tmp ∷ []) (names cur) t (omega arith)
    ∙ ap some (append_assoc ans (tmp ∷ []) (names cur ∷ levels_from k (suc d) t))

seek_from-eq-levels : (t : Tree) → seek_from t ≡ some (levels t)
unfolding seek_from levels levels_from weight height layer
seek_from-eq-levels nil = refl
seek_from-eq-levels (node n l r) =
    let t : Tree = node n l r in
    let k : ℕ = max (height l) (height r) in
    let fuel : ℕ = weight k 1 t + 1 in
    let start : ℕ = suc (count t) in
    let enough : weight (suc k) 0 t ≡ count t = weight-count (suc k) t (omega arith) in
    ap (λ q. seek_loop q [] [] (cells t) 1) {x = start} (omega (arith, enough))
    ∙ sweep_layer fuel [] (cells t)
    ∙ ap (λ q. seek_loop fuel [] (names (cells t)) q 0) (children-layer 0 t)
    ∙ descend_levels k 1 [] (names (cells t)) t (omega arith)

-- `SeekLevel` runs to its end, and returns the levels of the tree from the root down, each from
-- left to right.
pub seek_level-eq-levels : (kt : KeyTree) → seek_level kt ≡ some (levels kt.root)
unfolding seek_level
seek_level-eq-levels kt = seek_from-eq-levels kt.root
