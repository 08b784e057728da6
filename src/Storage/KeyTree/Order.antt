-- ===== src/Storage/KeyTree/Order.antt =====
-- `Insert` against an ordered set: the keys in order, and the invariant of the tree.
use Prim.Native.Nat.{Ordering}
use pole.Prelude.{
  ℕ, suc, ◌<◌, ◌≡◌, refl, sym, ap, ◌∙◌, inl, inr, Option, none, some, List, [], ◌∷◌, ◌++◌, arith,
  Text, str_compare, Before, All, All-append, append-All, All-map,
}
use pole.Prelude.Strings.{Before-trans, str_compare_flip, str_compare_cases}
use pole.Storage.KeyTree.{Node, Tree, nil, node, KeyTree, insert_val, insert}

-- Every node of the tree.
abbrev pub AllNodes : (Node → Type 0) → Tree → Type 0
AllNodes P nil = Unit
AllNodes P (node n l r) = P n × AllNodes P l × AllNodes P r

abbrev pub KeysBefore : Text → Tree → Type 0
KeysBefore v = AllNodes (λ m. Before m.val v)

abbrev pub KeysAfter : Text → Tree → Type 0
KeysAfter v = AllNodes (λ m. Before v m.val)

abbrev pub IsSearchTree : Tree → Type 0
IsSearchTree nil = Unit
IsSearchTree (node n l r) = KeysBefore n.val l × KeysAfter n.val r × IsSearchTree l × IsSearchTree r

-- Each `parent` field holds the address of the node above.
abbrev pub IsLinked : Option ℕ → Tree → Type 0
IsLinked p nil = Unit
IsLinked p (node n l r) = (n.parent ≡ p) × IsLinked (some n.addr) l × IsLinked (some n.addr) r

abbrev pub AddrsBelow : ℕ → Tree → Type 0
AddrsBelow k = AllNodes (λ m. m.addr < k)

pub record IsValid (kt : KeyTree) : Type 0 where
  pub ordered : IsSearchTree kt.root
  pub linked : IsLinked none kt.root
  pub below : AddrsBelow kt.next kt.root

-- The keys from left to right.
unfoldable pub keys : Tree → List Text
keys nil = []
keys (node n l r) = keys l ++ n.val ∷ keys r

-- Insertion in an ordered list without repetition.
unfoldable pub insert_sorted : Text → List Text → List Text
insert_sorted v [] = v ∷ []
insert_sorted v (x ∷ xs) = elim (str_compare v x) [
  | Ordering.lt ↦ v ∷ x ∷ xs
  | Ordering.eq ↦ x ∷ xs
  | Ordering.gt ↦ x ∷ insert_sorted v xs
]

pub All-keys : (P : Text → Type 0) (t : Tree) → AllNodes (λ m. P m.val) t → All P (keys t)
unfolding keys
All-keys P nil h = tt
All-keys P (node n l r) h =
    All-append P (keys l) (n.val ∷ keys r) (All-keys P l h.1) (h.0, All-keys P r h.2)

pub AllNodes-keys : (P : Text → Type 0) (t : Tree) → All P (keys t) → AllNodes (λ m. P m.val) t
unfolding keys
AllNodes-keys P nil h = tt
AllNodes-keys P (node n l r) h =
    let parts : All P (keys l) × All P (n.val ∷ keys r) =
      append-All P (keys l) (n.val ∷ keys r) h in
    (parts.1.0, AllNodes-keys P l parts.0, AllNodes-keys P r parts.1.1)

insert_sorted_left :
    (v x : Text) (xs ys : List Text)
    → Before v x
    → insert_sorted v (xs ++ x ∷ ys) ≡ insert_sorted v xs ++ x ∷ ys
unfolding insert_sorted
insert_sorted_left v x [] ys h = ground arith
insert_sorted_left v x (z ∷ xs) ys h = ground (arith, insert_sorted_left v x xs ys h)

insert_sorted_right :
    (v x : Text) (xs ys : List Text)
    → All (λ z. Before z v) xs
    → insert_sorted v (xs ++ x ∷ ys) ≡ xs ++ insert_sorted v (x ∷ ys)
unfolding insert_sorted
insert_sorted_right v x [] ys h = refl
insert_sorted_right v x (z ∷ xs) ys h =
    ground (arith, str_compare_flip z v, insert_sorted_right v x xs ys h.1)

insert_sorted_head :
    (v x : Text) (xs : List Text)
    → str_compare v x ≡ Ordering.eq
    → insert_sorted v (x ∷ xs) ≡ x ∷ xs
unfolding insert_sorted
insert_sorted_head v x xs e = ground arith

insert_sorted_past :
    (v x : Text) (xs : List Text)
    → str_compare v x ≡ Ordering.gt
    → insert_sorted v (x ∷ xs) ≡ x ∷ insert_sorted v xs
unfolding insert_sorted
insert_sorted_past v x xs e = ground arith

-- The keys of the new tree are those of the old one with `v` put in its place, once.
pub keys-insert_val :
    (fresh : ℕ) (v : Text) (t : Tree) (p : Option ℕ)
    → IsSearchTree t
    → keys (insert_val fresh v t p) ≡ insert_sorted v (keys t)
unfolding keys insert_val
keys-insert_val fresh v nil p h = unfold insert_sorted in refl
keys-insert_val fresh v (node n l r) p h = elim (str_compare_cases v n.val) [
  | inl e ↦
      rw (e, insert_val, keys-insert_val fresh v l (some n.addr) h.2)
        (sym (insert_sorted_left v n.val (keys l) (keys r) e))
  | inr (inl (e, same)) ↦
      rw (e, insert_val)
        (sym (
          insert_sorted_right v n.val (keys l) (keys r)
            (rw same (All-keys (λ k. Before k n.val) l h.0))
          ∙ ap (◌++◌ (keys l)) (insert_sorted_head v n.val (keys r) e)))
  | inr (inr (e, above)) ↦
      rw (e, insert_val, keys-insert_val fresh v r (some n.addr) h.3)
        (sym (
          insert_sorted_right v n.val (keys l) (keys r) (
            All-map (keys l) (λ k b. Before-trans k n.val v b above)
              (All-keys (λ k. Before k n.val) l h.0))
          ∙ ap (◌++◌ (keys l)) (insert_sorted_past v n.val (keys r) e)))
]

insert_val-AllNodes :
    (P : Node → Type 0) (fresh : ℕ) (v : Text) (t : Tree) (p : Option ℕ)
    → ((q : Option ℕ) → P (record { addr = fresh; val = v; parent = q }))
    → AllNodes P t
    → AllNodes P (insert_val fresh v t p)
unfolding insert_val
insert_val-AllNodes P fresh v nil p new h = (new p, tt, tt)
insert_val-AllNodes P fresh v (node n l r) p new h = elim (str_compare_cases v n.val) [
  | inl e ↦ rw (e, insert_val) (h.0, insert_val-AllNodes P fresh v l (some n.addr) new h.1, h.2)
  | inr (inl (e, _)) ↦ rw (e, insert_val) h
  | inr (inr (e, _)) ↦
      rw (e, insert_val) (h.0, h.1, insert_val-AllNodes P fresh v r (some n.addr) new h.2)
]

insert_val-IsSearchTree :
    (fresh : ℕ) (v : Text) (t : Tree) (p : Option ℕ)
    → IsSearchTree t
    → IsSearchTree (insert_val fresh v t p)
unfolding insert_val
insert_val-IsSearchTree fresh v nil p h = (tt, tt, tt, tt)
insert_val-IsSearchTree fresh v (node n l r) p h = elim (str_compare_cases v n.val) [
  | inl e ↦
      rw (e, insert_val)
        (
          insert_val-AllNodes (λ m. Before m.val n.val) fresh v l (some n.addr) (λ _. e) h.0,
          h.1,
          insert_val-IsSearchTree fresh v l (some n.addr) h.2,
          h.3,
        )
  | inr (inl (e, _)) ↦ rw (e, insert_val) h
  | inr (inr (e, above)) ↦
      rw (e, insert_val)
        (
          h.0,
          insert_val-AllNodes (λ m. Before n.val m.val) fresh v r (some n.addr) (λ _. above) h.1,
          h.2,
          insert_val-IsSearchTree fresh v r (some n.addr) h.3,
        )
]

insert_val-IsLinked :
    (fresh : ℕ) (v : Text) (t : Tree) (p : Option ℕ)
    → IsLinked p t
    → IsLinked p (insert_val fresh v t p)
unfolding insert_val
insert_val-IsLinked fresh v nil p h = (refl, tt, tt)
insert_val-IsLinked fresh v (node n l r) p h = elim (str_compare_cases v n.val) [
  | inl e ↦ rw (e, insert_val) (h.0, insert_val-IsLinked fresh v l (some n.addr) h.1, h.2)
  | inr (inl (e, _)) ↦ rw (e, insert_val) h
  | inr (inr (e, _)) ↦
      rw (e, insert_val) (h.0, h.1, insert_val-IsLinked fresh v r (some n.addr) h.2)
]

pub AllNodes-map :
    {P Q : Node → Type 0} (t : Tree) → ((m : Node) → P m → Q m) → AllNodes P t → AllNodes Q t
AllNodes-map nil f h = tt
AllNodes-map (node n l r) f h = (f n h.0, AllNodes-map l f h.1, AllNodes-map r f h.2)

-- `Insert` keeps a valid tree valid: ordered, with correct parent fields and old addresses only.
pub insert-IsValid : (v : Text) (kt : KeyTree) → IsValid kt → IsValid (insert v kt)
unfolding insert
insert-IsValid v kt h = record {
  ordered = insert_val-IsSearchTree kt.next v kt.root none h.ordered;
  linked = insert_val-IsLinked kt.next v kt.root none h.linked;
  below =
      insert_val-AllNodes (λ m. m.addr < suc kt.next) kt.next v kt.root none (λ _. omega arith)
        (AllNodes-map kt.root (λ m b. omega arith) h.below);
}

-- `Insert` on a valid tree is insertion in the ordered set of its keys.
pub keys-insert :
    (v : Text) (kt : KeyTree)
    → IsValid kt
    → keys (insert v kt).root ≡ insert_sorted v (keys kt.root)
unfolding insert
keys-insert v kt h = keys-insert_val kt.next v kt.root none h.ordered
