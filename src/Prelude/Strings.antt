-- ===== src/Prelude/Strings.antt =====
-- A Go string is a sequence of bytes: a list of native numbers. `strings.Compare` of the standard
-- library orders them lexicographically by byte, a proper prefix first; it is modelled with the
-- result -1, 0, 1 as `lt`, `eq`, `gt`.
use Prim.Native.Nat.{ℕ, compare, Ordering}
use Prim.Native.Char.{code}
use Prim.Native.String.{String}
use mathlib.Core.Path.{◌≡◌, refl}
use mathlib.Core.Logic.{◌↔◌, ◌⊎◌, inl, inr}
use mathlib.Core.Bool.{Bool, true, false}
use mathlib.Core.List.{List, [], ◌∷◌}
use native.Mathlib.Omega.{arith}

abbrev pub Text : Type 0
Text = List ℕ

-- The bytes of an ASCII literal.
abbrev pub codes : String → Text
codes String.[] = []
codes (String.◌∷◌ c s) = code c ∷ codes s

unfoldable pub str_compare : Text → Text → Ordering
str_compare [] [] = Ordering.eq
str_compare [] (b ∷ t) = Ordering.lt
str_compare (a ∷ s) [] = Ordering.gt
str_compare (a ∷ s) (b ∷ t) = elim (compare a b) [
  | Ordering.lt ↦ Ordering.lt
  | Ordering.gt ↦ Ordering.gt
  | Ordering.eq ↦ str_compare s t
]

-- Go's `==` on strings.
unfoldable pub str_eq : Text → Text → Bool
unfolding str_compare
str_eq s t = elim (str_compare s t) [ Ordering.eq ↦ true | _ ↦ false ]

pub str_compare_refl : (s : Text) → str_compare s s ≡ Ordering.eq
unfolding str_compare
str_compare_refl [] = refl
str_compare_refl (a ∷ s) = ground (arith, str_compare_refl s)

pub eq_of_str_compare : (s t : Text) → str_compare s t ≡ Ordering.eq → s ≡ t
unfolding str_compare
eq_of_str_compare [] [] h = refl
eq_of_str_compare [] (b ∷ t) h = ground arith
eq_of_str_compare (a ∷ s) [] h = ground arith
eq_of_str_compare (a ∷ s) (b ∷ t) h = ground (arith, eq_of_str_compare s t)

pub str_compare_flip :
    (s t : Text) → (str_compare s t ≡ Ordering.lt) ↔ (str_compare t s ≡ Ordering.gt)
unfolding str_compare
str_compare_flip [] [] = ground arith
str_compare_flip [] (b ∷ t) = ground arith
str_compare_flip (a ∷ s) [] = ground arith
str_compare_flip (a ∷ s) (b ∷ t) = ground (arith, str_compare_flip s t)

-- `s` is before `t`.
abbrev pub Before : Text → Text → Type 0
Before s t = str_compare s t ≡ Ordering.lt

pub Before-trans : (s t u : Text) → Before s t → Before t u → Before s u
unfolding str_compare
Before-trans [] [] u p q = ground arith
Before-trans [] (b ∷ t) [] p q = ground arith
Before-trans [] (b ∷ t) (c ∷ u) p q = refl
Before-trans (a ∷ s) [] u p q = ground arith
Before-trans (a ∷ s) (b ∷ t) [] p q = ground arith
Before-trans (a ∷ s) (b ∷ t) (c ∷ u) p q = ground (arith, Before-trans s t u)

pub str_eq_refl : (s : Text) → str_eq s s ≡ true
unfolding str_eq
str_eq_refl s = ground (arith, str_compare_refl s)

pub str_eq_iff : (s t : Text) → (str_eq s t ≡ true) ↔ (s ≡ t)
unfolding str_eq
str_eq_iff s t = (λ h. eq_of_str_compare s t (ground arith), λ e. rw (← e) (str_eq_refl s))

-- How the three results of `str_compare` exclude one another, in the form that `ground` reads.
pub Before-irrefl : (s : Text) → ¬ Before s s
Before-irrefl s h = cc (str_compare_refl s)

pub eq_iff_str_compare : (s t : Text) → (str_compare s t ≡ Ordering.eq) ↔ (s ≡ t)
eq_iff_str_compare s t = (eq_of_str_compare s t, λ e. rw (← e) (str_compare_refl s))

Ordering-cases : (o : Ordering) → (o ≡ Ordering.lt) ⊎ (o ≡ Ordering.eq) ⊎ (o ≡ Ordering.gt)
Ordering-cases Ordering.lt = inl refl
Ordering-cases Ordering.eq = inr (inl refl)
Ordering-cases Ordering.gt = inr (inr refl)

-- The three results, as facts about the two strings.
pub str_compare_cases :
    (s t : Text)
    → (str_compare s t ≡ Ordering.lt)
      ⊎ ((str_compare s t ≡ Ordering.eq) × (s ≡ t))
      ⊎ ((str_compare s t ≡ Ordering.gt) × Before t s)
str_compare_cases s t = elim (Ordering-cases (str_compare s t)) [
  | inl e ↦ inl e
  | inr (inl e) ↦ inr (inl (e, eq_of_str_compare s t e))
  | inr (inr e) ↦ inr (inr (e, (str_compare_flip t s).1 e))
]
