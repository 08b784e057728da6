-- ===== src/Storage/KeyTree/Without.antt =====
-- The keys of a search tree with one key left out, at each of the three places where it may stand.
use pole.Prelude.{
  ◌≡◌, ◌≢◌, refl, ap, ◌∙◌, List, [], ◌∷◌, ◌++◌, arith, Text, str_eq, str_eq_iff, Before, All,
  All-map, if◌then◌else◌,
}
use pole.Prelude.Strings.{Before-irrefl, Before-trans}
use pole.Storage.KeyTree.{Node, Tree, node}
use pole.Storage.KeyTree.Order.{IsSearchTree, keys, All-keys}

-- The list with `v` left out.
unfoldable pub without : Text → List Text → List Text
without v [] = []
without v (x ∷ xs) = let rest = without v xs in if str_eq v x then rest else x ∷ rest

without-append :
    (v : Text) (xs ys : List Text) → without v (xs ++ ys) ≡ without v xs ++ without v ys
unfolding without
without-append v [] ys = refl
without-append v (x ∷ xs) ys = ground (arith, without-append v xs ys)

without-absent : (v : Text) (xs : List Text) → All (λ x. v ≢ x) xs → without v xs ≡ xs
unfolding without
without-absent v [] h = refl
without-absent v (x ∷ xs) h = ground (arith, str_eq_iff v x, without-absent v xs h.1)

pub without-All : (P : Text → Type 0) (v : Text) (xs : List Text) → All P xs → All P (without v xs)
unfolding without
without-All P v [] h = tt
without-All P v (x ∷ xs) h = ground (arith, without-All P v xs h.1)

without_other : (v x : Text) (xs : List Text) → v ≢ x → without v (x ∷ xs) ≡ x ∷ without v xs
unfolding without
without_other v x xs h = ground (arith, str_eq_iff v x)

without_self : (v : Text) (xs : List Text) → without v (v ∷ xs) ≡ without v xs
unfolding without
without_self v xs = ground (arith, str_eq_iff v v)

ne_of_Before : (s t : Text) → Before s t → s ≢ t
ne_of_Before s t b e = Before-irrefl t (rw e at b)

ne_of_After : (s t : Text) → Before t s → s ≢ t
ne_of_After s t b e = Before-irrefl t (rw e at b)

module _ (v : Text) (n : Node) (l r : Tree) (h : IsSearchTree (node n l r)) where
  pub without-keys_left :
      Before v n.val → without v (keys (node n l r)) ≡ without v (keys l) ++ n.val ∷ keys r
  unfolding keys
  without-keys_left b =
      without-append v (keys l) (n.val ∷ keys r)
      ∙ ap (◌++◌ (without v (keys l))) (
          without-absent v (n.val ∷ keys r) (
            ne_of_Before v n.val b,
            All-map (keys r) (λ x a. ne_of_Before v x (Before-trans v n.val x b a))
                (All-keys (Before n.val) r h.1),
          ))

  left_absent : All (λ x. n.val ≢ x) (keys l)
  left_absent =
      All-map (keys l) (λ x a. ne_of_After n.val x a) (All-keys (λ x. Before x n.val) l h.0)

  pub without-keys_right :
      Before n.val v → without v (keys (node n l r)) ≡ keys l ++ n.val ∷ without v (keys r)
  unfolding keys
  without-keys_right b =
      without-append v (keys l) (n.val ∷ keys r)
      ∙ ap (λ k. k ++ without v (n.val ∷ keys r))
          (without-absent v (keys l) (
            All-map (keys l) (λ x a. ne_of_After v x (Before-trans x n.val v a b))
              (All-keys (λ x. Before x n.val) l h.0)))
      ∙ ap (◌++◌ (keys l)) (without_other v n.val (keys r) (ne_of_After v n.val b))

  pub without-keys_here : v ≡ n.val → without v (keys (node n l r)) ≡ keys l ++ keys r
  unfolding keys
  without-keys_here e = rw e (
      without-append n.val (keys l) (n.val ∷ keys r)
      ∙ ap (λ k. k ++ without n.val (n.val ∷ keys r)) (without-absent n.val (keys l) left_absent)
      ∙ ap (◌++◌ (keys l)) (
          without_self n.val (keys r)
          ∙ without-absent n.val (keys r)
              (All-map (keys r) (λ x a. ne_of_Before n.val x a) (All-keys (Before n.val) r h.1))))
