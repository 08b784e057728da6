-- ===== src/Cluster/Reports/Choice.antt =====
-- Which members `KRandomMember` of server/cluster/member_utils.go chooses.
use pole.Prelude.{
  ℕ, zero, suc, ◌+◌, ◌*◌, ◌%◌, ◌≤◌, ◌<◌, Bool, true, false, some, List, [], ◌∷◌, length, get_elem?,
  returned, panicked, leb, ◌≡◌, refl, sym, ap, All, arith, inl, inr,
}
use pole.Prelude.Tests.{Bool-cases}
use mathlib.Core.Path.{subst}
use native.Mathlib.Nat.{mod-lt}
use pole.Cluster.Reports.{MemberSets, IsMemberSets, add_if, choose, k_random_member}

module _ {A : Type 0} (sets : MemberSets A) (laws : IsMemberSets sets) where
  open sets use {MemberSet, new_set, add, size, elements}

  -- A member that may be chosen.
  abbrev pub IsChoice : List A → (A → Bool) → A → Type 0
  IsChoice members filter m = (filter m ≡ true) × ((i : ℕ) × (get_elem? members i ≡ some m))

  -- A set that the loop may have.
  abbrev Bounded : ℕ → List A → (A → Bool) → MemberSet → Type 0
  Bounded k members filter s = (size s ≤ k + 1) × All (IsChoice members filter) (elements s)

  none_chosen :
      (members : List A) (filter : A → Bool) → All (IsChoice members filter) (elements new_set)
  none_chosen members filter = subst (All (IsChoice members filter)) (sym laws.elements-new_set) tt

  within :
      (members : List A) (i : ℕ) → i < length members → (m : A) × (get_elem? members i ≡ some m)
  within [] i lt = ground (arith, lt)
  within (m ∷ ms) zero lt = (m, refl)
  within (m ∷ ms) (suc i) lt = within ms i (omega (arith, lt))

  add_if-Bounded :
      (k i : ℕ) (members : List A) (filter : A → Bool) (m : A) (s : MemberSet) (b : Bool)
      → filter m ≡ b
      → get_elem? members i ≡ some m
      → size s ≤ k
      → Bounded k members filter s
      → Bounded k members filter (add_if sets b m s)
  add_if-Bounded k i members filter m s true e at lt h = (
    omega (arith, laws.size-add m s, lt),
    laws.elements-add (IsChoice members filter) m s (e, (i, at)) h.1,
  )
  add_if-Bounded k i members filter m s false e at lt h = h

  choose-Bounded :
      (draws : ℕ → ℕ) (k : ℕ) (members : List A) (filter : A → Bool) (left i : ℕ) (s : MemberSet)
      → 0 < length members
      → Bounded k members filter s
      → (s' : MemberSet) × (choose sets draws k members filter left i s ≡ returned s')
        × Bounded k members filter s'
  unfolding choose
  choose-Bounded draws k members filter zero i s some_members h = (s, refl, h)
  choose-Bounded draws k members filter (suc left) i s some_members h =
      elim (Bool-cases (leb (size s) k)) [
        | inr e ↦ (s, rw (e, choose) refl, h)
        | inl e ↦
            let at = within members (draws i % length members) (mod-lt (draws i) some_members) in
            let next = add_if sets (filter at.0) at.0 s in
            let rest = choose-Bounded draws k members filter left (suc i) next some_members (
              add_if-Bounded k (draws i % length members) members filter at.0 s (filter at.0) refl
                at.1 (ground (arith, e)) h) in
            (rest.0, rw (e, at.1, choose) rest.1, rest.2)
      ]

  -- KRandomMember always returns, also of no members. It returns at most k + 1 of them, each of which is
  -- one of the members and passes the filter, whatever the random numbers are.
  pub k_random_member_lem :
      (draws : ℕ → ℕ) (k : ℕ) (members : List A) (filter : A → Bool)
      → (ms : List A) × (k_random_member sets draws k members filter ≡ returned ms)
        × (length ms ≤ k + 1)
        × All (IsChoice members filter) ms
  unfolding k_random_member choose
  k_random_member_lem draws k [] filter = (
    elements new_set,
    refl,
    omega (arith, laws.size-elements new_set, laws.size-new_set),
    none_chosen [] filter,
  )
  k_random_member_lem draws k (m ∷ members) filter =
      let r =
        choose-Bounded draws k (m ∷ members) filter (3 * length (m ∷ members)) 0 new_set
          (omega arith) (omega (arith, laws.size-new_set), none_chosen (m ∷ members) filter) in
      (
        elements r.0,
        ap (λ o. elim o [ panicked ↦ panicked | returned s ↦ returned (elements s) ]) r.1,
        omega (arith, laws.size-elements r.0, r.2.0),
        r.2.1,
      )
