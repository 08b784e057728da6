-- ===== src/Cluster/Reports/Examples.antt =====
-- Members on which the theorems about reports are applied.
use pole.Prelude.{
  ℕ, ◌≤◌, Bool, true, false, List, [], ◌∷◌, length, All, ◌≡◌, refl, arith, returned, ◌||◌, ◌==◌,
  if◌then◌else◌,
}
use pole.Cluster.Reports.{MemberSets, IsMemberSets, k_random_member}
use pole.Cluster.Reports.Choice.{IsChoice, k_random_member_lem}

mem : ℕ → List ℕ → Bool
mem n [] = false
mem n (m ∷ ms) = (m == n) || mem n ms

add_new : ℕ → List ℕ → List ℕ
unfolding mem
add_new n s = if mem n s then s else n ∷ s

abbrev number_sets : MemberSets ℕ
number_sets = record {
  MemberSet = List ℕ;
  new_set = [];
  add = add_new;
  size = λ s. length s;
  elements = λ s. s;
}

add_if_new :
    (P : ℕ → Type 0) (b : Bool) (n : ℕ) (s : List ℕ)
    → P n
    → All P s
    → All P (if b then s else n ∷ s)
add_if_new P true n s h hs = hs
add_if_new P false n s h hs = (h, hs)

number_sets_laws : IsMemberSets number_sets
unfolding add_new
number_sets_laws = record {
  size-new_set = refl;
  size-add = λ a s. ground arith;
  size-elements = λ s. refl;
  elements-new_set = refl;
  elements-add = λ P a s h hs. add_if_new P (mem a s) a s h hs;
}

k_random_member_lem_example :
    (ms : List ℕ) × (k_random_member number_sets (λ i. i) 1 (4 ∷ 5 ∷ 6 ∷ []) (λ n. n == 4 || n == 6)
      ≡ returned ms)
    × (length ms ≤ 2)
    × All (IsChoice number_sets number_sets_laws (4 ∷ 5 ∷ 6 ∷ []) (λ n. n == 4 || n == 6)) ms
k_random_member_lem_example =
    k_random_member_lem number_sets number_sets_laws (λ i. i) 1 (4 ∷ 5 ∷ 6 ∷ [])
      (λ n. n == 4 || n == 6)
