-- ===== src/Hashing/Ring/Adding.antt =====
-- `AddNode`: the ring that it leaves, and when it does not return.
use mathlib.Core.Path.{subst}
use pole.Prelude.{
  ℕ, zero, suc, ◌-◌, ◌≤◌, ◌≡◌, refl, inl, inr, true, none, some, List, [], ◌∷◌, ◌++◌, arith, Text,
  lookup, insert, leb, ◌==◌, All, All-append, All-map, Option-cases, Bool-cases,
}
use pole.Hashing.Crc32.{checksum_ieee}
use pole.Hashing.Search.{IsSorted}
use pole.Hashing.Ring.{
  Circle, ConsistentHash, node_at, insert_number, sort, sorted, place, place_all, add_node,
}

-- A position that the circle has a node for.
abbrev pub IsTaken : Circle → ℕ → Type 0
IsTaken c p = (n : Text) × (node_at p c ≡ some n)

pub record IsValid (ch : ConsistentHash) : Type 0 where
  pub ordered : IsSorted ch.sort_node
  pub placed : All (IsTaken ch.circle_map) ch.sort_node

insert_number-All :
    (P : ℕ → Type 0) (x : ℕ) (xs : List ℕ) → P x → All P xs → All P (insert_number x xs)
unfolding insert_number
insert_number-All P x [] px h = (px, tt)
insert_number-All P x (y ∷ ys) px h = elim (Bool-cases (leb x y)) [
  | inl e ↦ rw (e, insert_number) (px, h)
  | inr e ↦ rw (e, insert_number) (h.0, insert_number-All P x ys px h.1)
]

insert_number-IsSorted : (x : ℕ) (xs : List ℕ) → IsSorted xs → IsSorted (insert_number x xs)
unfolding insert_number
insert_number-IsSorted x [] s = (tt, tt)
insert_number-IsSorted x (y ∷ ys) s = elim (Bool-cases (leb x y)) [
  | inl e ↦
      let below : x ≤ y = ground arith in
      rw (e, insert_number) ((below, All-map ys (λ z h. omega arith) s.0), s)
  | inr e ↦
      let above : y ≤ x = ground arith in
      rw (e, insert_number)
        (insert_number-All (λ z. y ≤ z) x ys above s.0, insert_number-IsSorted x ys s.1)
]

sort-IsSorted : (xs : List ℕ) → IsSorted (sort xs)
unfolding sort
sort-IsSorted [] = tt
sort-IsSorted (x ∷ xs) = insert_number-IsSorted x (sort xs) (sort-IsSorted xs)

sort-All : (P : ℕ → Type 0) (xs : List ℕ) → All P xs → All P (sort xs)
unfolding sort
sort-All P [] h = tt
sort-All P (x ∷ xs) h = insert_number-All P x (sort xs) h.0 (sort-All P xs h.1)

abbrev IsPlaced : ConsistentHash → Type 0
IsPlaced ch = All (IsTaken ch.circle_map) ch.sort_node

-- A new entry hides no other.
IsTaken-cons : (p q : ℕ) (n : Text) (c : Circle) → IsTaken c q → IsTaken ((p, n) ∷ c) q
unfolding node_at
IsTaken-cons p q n c (m, e) = elim (Bool-cases (p == q)) [
  | inl same ↦ (n, rw (same, node_at))
  | inr other ↦ (m, rw (other, node_at) e)
]

IsTaken-here : (p : ℕ) (n : Text) (c : Circle) → IsTaken ((p, n) ∷ c) p
unfolding node_at
IsTaken-here p n c = (n, ground arith)

place-IsPlaced :
    (fuel : ℕ) (n : Text) (ch ch' : ConsistentHash)
    → IsPlaced ch
    → place fuel n ch ≡ some ch'
    → IsPlaced ch'
unfolding place
place-IsPlaced zero n ch ch' h e = cc
place-IsPlaced (suc fuel) n ch ch' h e =
    elim (Option-cases (node_at (checksum_ieee n) ch.circle_map)) [
      | inl free ↦
          let grown : ConsistentHash = record ch {
            circle_map = (checksum_ieee n, n) ∷ ch.circle_map;
            sort_node = ch.sort_node ++ checksum_ieee n ∷ [];
          } in
          let same : grown ≡ ch' = ground arith in
          subst IsPlaced same (
            All-append (IsTaken grown.circle_map) ch.sort_node (checksum_ieee n ∷ [])
              (All-map ch.sort_node (λ q t. IsTaken-cons (checksum_ieee n) q n ch.circle_map t) h)
              (IsTaken-here (checksum_ieee n) n ch.circle_map, tt))
      | inr (m, taken) ↦ place-IsPlaced fuel n ch ch' h (rw (taken, place) at e)
    ]

place_all-IsPlaced :
    (fuel k : ℕ) (n : Text) (ch ch' : ConsistentHash)
    → IsPlaced ch
    → place_all fuel k n ch ≡ some ch'
    → IsPlaced ch'
unfolding place_all
place_all-IsPlaced fuel zero n ch ch' h e = let same : ch ≡ ch' = cc in rw same at h
place_all-IsPlaced fuel (suc k) n ch ch' h e = elim (Option-cases (place fuel n ch)) [
  | inl out ↦ absurd (ground arith)
  | inr (next, p) ↦
      place_all-IsPlaced fuel k n next ch' (place-IsPlaced fuel n ch next h p) (ground arith)
]

sorted-IsValid : (ch : ConsistentHash) → IsPlaced ch → IsValid (sorted ch)
unfolding sorted
sorted-IsValid ch h = record {
  ordered = sort-IsSorted ch.sort_node;
  placed = sort-All (IsTaken ch.circle_map) ch.sort_node h;
}

-- Whenever `AddNode` returns on a valid ring, the ring is valid: its positions are in order, and
-- each has a node.
pub add_node-IsValid :
    (fuel : ℕ) (n : Text) (ch ch' : ConsistentHash)
    → IsValid ch
    → add_node fuel n ch ≡ some ch'
    → IsValid ch'
unfolding add_node
add_node-IsValid fuel n ch ch' h e = elim (Option-cases (lookup n ch.node_map)) [
  | inr (b, known) ↦
      let same : sorted ch ≡ ch' = ground arith in subst IsValid same (sorted-IsValid ch h.placed)
  | inl fresh ↦
      let opened : ConsistentHash = record ch { node_map = insert n true ch.node_map } in
      elim (Option-cases (place_all fuel ch.virtual_node_num n opened)) [
        | inl out ↦ absurd (ground arith)
        | inr (next, p) ↦
            let same : sorted next ≡ ch' = ground arith in
            subst IsValid same (
              sorted-IsValid next
                (place_all-IsPlaced fuel ch.virtual_node_num n opened next h.placed p))
      ]
]

place-taken :
    (fuel : ℕ) (n m : Text) (ch : ConsistentHash)
    → node_at (checksum_ieee n) ch.circle_map ≡ some m
    → place fuel n ch ≡ none
unfolding place
place-taken zero n m ch e = refl
place-taken (suc fuel) n m ch e = rw (e, place) (place-taken fuel n m ch e)

place-free :
    (fuel : ℕ) (n : Text) (ch : ConsistentHash)
    → node_at (checksum_ieee n) ch.circle_map ≡ none
    → place (suc fuel) n ch
      ≡ some (record ch {
        circle_map = (checksum_ieee n, n) ∷ ch.circle_map;
        sort_node = ch.sort_node ++ checksum_ieee n ∷ [];
      })
unfolding place
place-free fuel n ch e = rw (e, place)

place_all-twice :
    (fuel k : ℕ) (n : Text) (ch : ConsistentHash) → place_all fuel (suc (suc k)) n ch ≡ none
unfolding place_all node_at
place_all-twice zero k n ch = unfold place in refl
place_all-twice (suc fuel) k n ch = elim (Option-cases (node_at (checksum_ieee n) ch.circle_map)) [
  | inr (m, taken) ↦ rw (place-taken (suc fuel) n m ch taken, place_all)
  | inl free ↦
      rw (place-free fuel n ch free, place_all)
        (rw (
          place-taken (suc fuel) n n
              (record ch {
                circle_map = (checksum_ieee n, n) ∷ ch.circle_map;
                sort_node = ch.sort_node ++ checksum_ieee n ∷ [];
              })
              (ground arith),
          place_all,
        ))
]

-- With two virtual nodes or more, `AddNode` of a new node does not return, however long it runs: it
-- tries the position that it has just taken again and again.
pub add_node_hangs :
    (fuel : ℕ) (n : Text) (ch : ConsistentHash)
    → lookup n ch.node_map ≡ none
    → 2 ≤ ch.virtual_node_num
    → add_node fuel n ch ≡ none
unfolding add_node
add_node_hangs fuel n ch fresh many = ground (
  arith,
  place_all-twice fuel (ch.virtual_node_num - 2) n
      (record ch { node_map = insert n true ch.node_map }),
  enough,
)
  where
    enough : suc (suc (ch.virtual_node_num - 2)) ≡ ch.virtual_node_num
    enough = omega arith

-- With one virtual node and a free position, `AddNode` of a new node returns in one round, and the
-- circle has the node at the checksum of its name.
pub add_node_once :
    (fuel : ℕ) (n : Text) (ch : ConsistentHash)
    → lookup n ch.node_map ≡ none
    → ch.virtual_node_num ≡ 1
    → node_at (checksum_ieee n) ch.circle_map ≡ none
    → (ch' : ConsistentHash) × (add_node (suc fuel) n ch ≡ some ch')
      × (node_at (checksum_ieee n) ch'.circle_map ≡ some n)
      × (ch'.sort_node ≡ sort (ch.sort_node ++ checksum_ieee n ∷ []))
unfolding add_node place_all sorted node_at
add_node_once fuel n ch fresh one free =
    let opened : ConsistentHash = record ch { node_map = insert n true ch.node_map } in
    (
      sorted (record opened {
        circle_map = (checksum_ieee n, n) ∷ ch.circle_map;
        sort_node = ch.sort_node ++ checksum_ieee n ∷ [];
      }),
      ground (arith, place-free fuel n opened free),
      ground arith,
      refl,
    )
