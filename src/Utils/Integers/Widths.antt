-- ===== src/Utils/Integers/Widths.antt =====
-- What the parsers of utils/common_util.go make of a number of any size.
use pole.Prelude.{
  ℕ, suc, ◌%◌, ◌^◌, ◌<◌, Bool, true, false, ltb, none, some, ◌∷◌, Text, returned, panicked, ◌≡◌,
  refl, ap, ◌∙◌, arith, Outcome, if◌then◌else◌,
}
use pole.Discovery.Model.{decimal}
use pole.Cluster.Member.{parse_digits, parse_below}
use pole.Cluster.Addresses.{parse_digits-decimal, decimal-cons, digits_only}
use pole.Utils.Integers.{
  atoi, check_err, low_bits, parse_to_int8, parse_to_int16, parse_to_int32, parse_to_uint8,
  parse_to_uint16, parse_to_uint32,
}

-- The decimal digits of a number that fits.
below_digits :
    (bound c n : ℕ) (s : Text)
    → parse_digits 0 (c ∷ s) ≡ some n
    → parse_below bound (c ∷ s) ≡ (if ltb n bound then some n else none)
unfolding parse_below
below_digits bound c n s e = rw (e, parse_below) refl

pub parse_below-decimal :
    (fuel bound n : ℕ)
    → n < 10 ^ suc fuel
    → parse_below bound (decimal (suc fuel) n) ≡ (if ltb n bound then some n else none)
parse_below-decimal fuel bound n lt =
    let d = decimal-cons fuel n in
    rw d.2 (below_digits bound d.0 n d.1 (rw (← d.2) (parse_digits-decimal (suc fuel) n lt)))

atoi-digits :
    (c n : ℕ) (s : Text) → parse_digits 0 (c ∷ s) ≡ some n → n < 2 ^ 63 → atoi (c ∷ s) ≡ some n
unfolding atoi parse_below
atoi-digits c n s e lt = let digit = (digits_only 0 n (c ∷ s) e).0 in ground (arith, e, digit)

pub atoi-decimal :
    (fuel n : ℕ) → n < 10 ^ suc fuel → n < 2 ^ 63 → atoi (decimal (suc fuel) n) ≡ some n
atoi-decimal fuel n fits lt =
    let d = decimal-cons fuel n in
    rw d.2 (atoi-digits d.0 n d.1 (rw (← d.2) (parse_digits-decimal (suc fuel) n fits)) lt)

-- What a parser of a signed and of an unsigned number of `w` bits make of the number `n`.
abbrev Narrowed : ℕ → ℕ → Outcome ℕ → Outcome ℕ → Type 0
Narrowed w n signed unsigned =
    (signed ≡ returned (n % 2 ^ w)) × (unsigned ≡ (if ltb n (2 ^ w) then returned n else panicked))

narrowed :
    (w n : ℕ)
    → n < 2 ^ 63
    → Narrowed w n
        (check_err (low_bits w (atoi (decimal 20 n))))
        (check_err (parse_below (2 ^ w) (decimal 20 n)))
narrowed w n lt = (
  ap (λ o. check_err (low_bits w o)) (atoi-decimal 19 n (omega (arith, lt)) lt),
  ap check_err (parse_below-decimal 19 (2 ^ w) n (omega (arith, lt)))
      ∙ checked_if (ltb n (2 ^ w)) n,
)
  where
    checked_if :
        (b : Bool) (m : ℕ)
        → check_err (if b then some m else none) ≡ (if b then returned m else panicked)
    checked_if true m = refl
    checked_if false m = refl

-- On the digits of a number below 2 ^ 63, the parsers of signed numbers of 8, 16 and 32 bits return its
-- lowest bits, whether or not it fits; those of unsigned numbers return it where it fits and
-- panic where it does not.
pub parse_to_int8-parse_to_uint8 :
    (n : ℕ)
    → n < 2 ^ 63
    → Narrowed 8 n (parse_to_int8 (decimal 20 n)) (parse_to_uint8 (decimal 20 n))
      × Narrowed 16 n (parse_to_int16 (decimal 20 n)) (parse_to_uint16 (decimal 20 n))
      × Narrowed 32 n (parse_to_int32 (decimal 20 n)) (parse_to_uint32 (decimal 20 n))
unfolding parse_to_int8 parse_to_int16 parse_to_int32 parse_to_uint8 parse_to_uint16 parse_to_uint32
parse_to_int8-parse_to_uint8 n lt = (narrowed 8 n lt, narrowed 16 n lt, narrowed 32 n lt)
