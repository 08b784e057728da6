-- ===== src/Storage/KeyTree/Walk.antt =====
-- `SeekLevel` and `Range`: the walks over the tree.
pub mod Levels
pub mod Queue
pub mod Preorder
use pole.Prelude.{
  ℕ, zero, suc, ◌+◌, ◌-◌, ◌≡◌, refl, Option, none, some, List, [], ◌∷◌, ◌++◌, arith, ◌==◌,
  if◌then◌else◌, length,
}
use pole.Storage.KeyTree.{Node, Tree, nil, node, KeyTree}

-- A node on the queue, with its two children.
pub record Cell : Type 0 where
  pub at : Node
  pub left : Tree
  pub right : Tree

-- What `append` adds for a pointer that may be nil.
abbrev pub cells : Tree → List Cell
cells nil = []
cells (node n l r) = record { at = n; left = l; right = r } ∷ []

-- The loop of `SeekLevel`; `none` means that the fuel ran out.
unfoldable pub seek_loop :
    ℕ → List (List Node) → List Node → List Cell → ℕ → Option (List (List Node))
seek_loop zero ans tmp stack now = none
seek_loop (suc fuel) ans tmp [] now = some (ans ++ tmp ∷ [])
seek_loop (suc fuel) ans tmp (p ∷ rest) now =
    seek_loop fuel (if now == 0 then ans ++ tmp ∷ [] else ans)
      ((if now == 0 then [] else tmp) ++ p.at ∷ []) (rest ++ (cells p.left ++ cells p.right))
      ((if now == 0 then suc (length rest) else now) - 1)

unfoldable pub count : Tree → ℕ
count nil = 0
count (node n l r) = suc (count l + count r)

-- One round for each node, and one to see the queue empty.
seek_from : Tree → Option (List (List Node))
unfolding seek_loop count
seek_from nil = some []
seek_from (node n l r) = seek_loop (suc (count (node n l r))) [] [] (cells (node n l r)) 1

unfoldable pub seek_level : KeyTree → Option (List (List Node))
unfolding seek_from
seek_level kt = seek_from kt.root

-- What a call of the visitor does: it returns nil or an error, or it panics.
pub data Visit {ℓ} (E : Type ℓ) : Type ℓ where
  fine : Visit E
  failed : E → Visit E
  threw : Visit E

module _ {ℓ} {S E : Type ℓ} where
  -- `rangeVal` over a visitor with its own state. The deferred `recover` of a call ends that call
  -- with a nil error.
  unfoldable pub range_val : (S → Node → S × Visit E) → S → Tree → S × Option E
  range_val call s nil = (s, none)
  range_val call s (node n l r) =
      let (s', out) = call s n in
      elim out [
        | threw ↦ (s', none)
        | failed e ↦ (s', some e)
        | fine ↦
            let (s'', stop) = range_val call s' l in
            elim stop [ some e ↦ (s'', some e) | none ↦ range_val call s'' r ]
      ]

unfoldable pub range : {S E : Type 0} → (S → Node → S × Visit E) → S → KeyTree → S × Option E
unfolding range_val
range call s kt = range_val call s kt.root
