-- ===== src/Hashing/Search.antt =====
-- `sort.Search` of Go's standard library over the positions of a sorted slice: the binary search,
-- and the index that it finds.
use pole.Prelude.{
  ℕ, zero, suc, ◌+◌, ◌/◌, ◌≤◌, ◌<◌, ◌≡◌, refl, Bool, true, false, none, some, List, [], ◌∷◌, arith,
  leb, ltb, if◌then◌else◌, length, get_elem?, All,
}

-- `sortNode[i] >= code`, read at an index in range.
unfoldable pub at_least : List ℕ → ℕ → ℕ → Bool
at_least xs code i = elim (get_elem? xs i) [ none ↦ true | some x ↦ leb code x ]

-- for i < j { h := (i + j) / 2; if !f(h) { i = h + 1 } else { j = h } }; return i
unfoldable pub search_loop : ℕ → (ℕ → Bool) → ℕ → ℕ → ℕ
search_loop zero f i j = i
search_loop (suc fuel) f i j = elim (ltb i j) [
  | false ↦ i
  | true ↦ elim (f ((i + j) / 2)) [
    | false ↦ search_loop fuel f ((i + j) / 2 + 1) j
    | true ↦ search_loop fuel f i ((i + j) / 2)
  ]
]

unfoldable pub search : ℕ → (ℕ → Bool) → ℕ
unfolding search_loop
search n f = search_loop n f 0 n

-- How many elements are below `code`.
unfoldable pub rank : ℕ → List ℕ → ℕ
rank code [] = 0
rank code (x ∷ xs) = if ltb x code then suc (rank code xs) else rank code xs

abbrev pub IsSorted : List ℕ → Type 0
IsSorted [] = Unit
IsSorted (x ∷ xs) = All (λ y. x ≤ y) xs × IsSorted xs

rank_zero : (code x : ℕ) (xs : List ℕ) → code ≤ x → All (λ y. x ≤ y) xs → rank code xs ≡ 0
unfolding rank
rank_zero code x [] le h = refl
rank_zero code x (y ∷ xs) le h = ground (arith, rank_zero code x xs le h.1)

pub rank-le-length : (code : ℕ) (xs : List ℕ) → rank code xs ≤ length xs
unfolding rank
rank-le-length code [] = omega arith
rank-le-length code (x ∷ xs) = ground (arith, rank-le-length code xs)

at_least-rank :
    (code : ℕ) (xs : List ℕ) (i : ℕ)
    → IsSorted xs
    → i < length xs
    → at_least xs code i ≡ leb (rank code xs) i
unfolding at_least rank
at_least-rank code [] i s h = absurd (omega arith)
at_least-rank code (x ∷ xs) zero s h = ground (arith, rank_zero code x xs)
at_least-rank code (x ∷ xs) (suc i) s h =
    ground (arith, rank_zero code x xs, at_least-rank code xs i s.1)

-- The loop narrows `i` and `j` around the first index at which `f` holds.
search_loop-first :
    (fuel : ℕ) (f : ℕ → Bool) (i j r n : ℕ)
    → ((k : ℕ) → k < n → f k ≡ leb r k)
    → j ≤ n
    → i ≤ r
    → r ≤ j
    → j ≤ i + fuel
    → search_loop fuel f i j ≡ r
unfolding search_loop
search_loop-first zero f i j r n spec jn ir rj enough = omega arith
search_loop-first (suc fuel) f i j r n spec jn ir rj enough = ground (
  arith,
  spec ((i + j) / 2),
  search_loop-first fuel f ((i + j) / 2 + 1) j r n spec jn,
  search_loop-first fuel f i ((i + j) / 2) r n spec,
)

-- On a sorted slice the binary search finds the number of elements below `code`: the first index
-- at which an element is at least `code`, or the length if there is none.
pub search-rank :
    (code : ℕ) (xs : List ℕ) → IsSorted xs → search (length xs) (at_least xs code) ≡ rank code xs
unfolding search
search-rank code xs s =
    search_loop-first (length xs) (at_least xs code) 0 (length xs) (rank code xs) (length xs)
      (λ k h. at_least-rank code xs k s h) (omega arith) (omega arith) (rank-le-length code xs)
      (omega arith)
