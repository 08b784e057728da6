-- ===== src/Storage/KeyTree/Growth.antt =====
-- A tree that only `Insert` has worked on.
use pole.Prelude.{ℕ, ◌+◌, ◌%◌, ◌≡◌, refl, ap, ◌∙◌, List, [], ◌∷◌, arith, Text, length}
use pole.Storage.KeyTree.{KeyTree, int64_mod, new_key_tree, insert}
use pole.Storage.KeyTree.Order.{IsValid, keys, insert_sorted, insert-IsValid, keys-insert}

-- The inserts of a list of keys, in order.
unfoldable pub grow : List Text → KeyTree → KeyTree
unfolding insert
grow [] kt = kt
grow (k ∷ ks) kt = grow ks (insert k kt)

-- The ordered set after these insertions.
unfoldable pub grow_sorted : List Text → List Text → List Text
grow_sorted [] xs = xs
grow_sorted (k ∷ ks) xs = grow_sorted ks (insert_sorted k xs)

grow-keeps :
    (ks : List Text) (kt : KeyTree)
    → IsValid kt
    → IsValid (grow ks kt)
      × (keys (grow ks kt).root ≡ grow_sorted ks (keys kt.root))
      × ((grow ks kt).size % int64_mod ≡ (kt.size + length ks) % int64_mod)
unfolding grow grow_sorted
grow-keeps [] kt h = (h, refl, omega arith)
grow-keeps (k ∷ ks) kt h =
    let rest = grow-keeps ks (insert k kt) (insert-IsValid k kt h) in
    (rest.0, rest.1 ∙ ap (grow_sorted ks) (keys-insert k kt h), omega (arith, rest.2))

-- After any inserts into a new tree: the tree is valid, its keys are the ordered set of the keys
-- inserted, and its size is the number of calls, repeated keys included, modulo 2 ^ 64.
pub grow-new_key_tree :
    (ks : List Text) (next : ℕ)
    → IsValid (grow ks (new_key_tree next))
      × (keys (grow ks (new_key_tree next)).root ≡ grow_sorted ks [])
      × ((grow ks (new_key_tree next)).size % int64_mod ≡ length ks % int64_mod)
unfolding new_key_tree keys
grow-new_key_tree ks next =
    let all =
      grow-keeps ks (new_key_tree next) (record { ordered = tt; linked = tt; below = tt }) in
    (all.0, all.1, omega (arith, all.2))
