-- ===== src/Prelude/Splitting.antt =====
-- Texts split at a byte and joined again: `strings.Split` with a separator of one byte, and `Join` of
-- utils/common_util.go.
use mathlib.Core.Path.{◌≡◌, refl}
use mathlib.Core.Logic.{◌≢◌}
use mathlib.Core.List.{List, [], ◌∷◌, ◌++◌, append-nil}
use native.Mathlib.Omega.{arith}
use Prim.Native.Nat.{ℕ}
use pole.Prelude.Tests.{if◌then◌else◌, ◌==◌}
use pole.Prelude.Lists.{All}
use pole.Prelude.Strings.{Text}

abbrev before_part : ℕ → Text × List Text → Text × List Text
before_part c (part, parts) = (c ∷ part, parts)

abbrev next_part : Text × List Text → Text × List Text
next_part (part, parts) = ([], part ∷ parts)

-- The part before the first separator, and the others.
unfoldable pub split : ℕ → Text → Text × List Text
split sep [] = ([], [])
split sep (c ∷ s) =
    let rest = split sep s in if c == sep then next_part rest else before_part c rest

-- Each text with the separator before it.
unfoldable join_rest : List Text → Text → Text
join_rest [] sep = []
join_rest (s ∷ elems) sep = sep ++ (s ++ join_rest elems sep)

unfoldable pub join : List Text → Text → Text
unfolding join_rest
join [] sep = []
join (s ∷ elems) sep = s ++ join_rest elems sep

pub split-whole : (sep : ℕ) (s : Text) → All (λ c. c ≢ sep) s → split sep s ≡ (s, [])
unfolding split
split-whole sep [] h = refl
split-whole sep (c ∷ s) h = ground (arith, split-whole sep s h.1, h.0)

split-append :
    (sep : ℕ) (x t : Text)
    → All (λ c. c ≢ sep) x
    → split sep (x ++ sep ∷ t) ≡ (x, (split sep t).0 ∷ (split sep t).1)
unfolding split
split-append sep [] t h = ground arith
split-append sep (c ∷ x) t h = ground (arith, split-append sep x t h.1, h.0)

-- Texts without the separator, joined with it and split again.
pub split-join :
    (sep : ℕ) (x : Text) (xs : List Text)
    → All (λ c. c ≢ sep) x
    → All (λ (y : Text). All (λ c. c ≢ sep) y) xs
    → split sep (join (x ∷ xs) (sep ∷ [])) ≡ (x, xs)
unfolding join
split-join sep x [] h hs = rw (append-nil x) (split-whole sep x h)
split-join sep x (y ∷ xs) h hs =
    rw (split-append sep x (join (y ∷ xs) (sep ∷ [])) h, split-join sep y xs hs.0 hs.1) refl
