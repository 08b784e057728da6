-- ===== src/Utils/Integers.antt =====
-- The parsing of numbers in utils/common_util.go. A number of any width is its bits.
pub mod Widths
pub mod Ports
use pole.Prelude.Splitting.{split}
use pole.Prelude.{
  ℕ, ◌+◌, ◌-◌, ◌%◌, ◌^◌, Option, none, some, List, [], ◌∷◌, Text, Outcome, returned, panicked, ◌==◌,
  if◌then◌else◌,
}
use pole.Cluster.Member.{parse_below}

abbrev negated : Option ℕ → Option ℕ
negated none = none
negated (some n) = some ((2 ^ 64 - n) % 2 ^ 64)

-- `strconv.Atoi`, for an int of 64 bits; `none` is the error.
unfoldable pub atoi : Text → Option ℕ
unfolding parse_below
atoi [] = none
atoi (c ∷ s) =
    if c == 45
    then negated (parse_below (2 ^ 63 + 1) s)
    else if c == 43
    then parse_below (2 ^ 63) s
    else parse_below (2 ^ 63) (c ∷ s)

-- `CheckErr` after a call that gives `none` for an error.
abbrev pub check_err : {A : Type 0} → Option A → Outcome A
check_err none = panicked
check_err (some a) = returned a

-- The lowest bits of an int, or an error.
abbrev pub low_bits : ℕ → Option ℕ → Option ℕ
low_bits w none = none
low_bits w (some i) = some (i % 2 ^ w)

unfoldable pub parse_to_int : Text → Outcome ℕ
unfolding atoi
parse_to_int val = check_err (atoi val)

unfoldable pub parse_to_int64 : Text → Outcome ℕ
unfolding atoi
parse_to_int64 val = check_err (low_bits 64 (atoi val))

unfoldable pub parse_to_int32 : Text → Outcome ℕ
unfolding atoi
parse_to_int32 val = check_err (low_bits 32 (atoi val))

unfoldable pub parse_to_int16 : Text → Outcome ℕ
unfolding atoi
parse_to_int16 val = check_err (low_bits 16 (atoi val))

unfoldable pub parse_to_int8 : Text → Outcome ℕ
unfolding atoi
parse_to_int8 val = check_err (low_bits 8 (atoi val))

-- `strconv.ParseUint` takes no sign.
unfoldable pub parse_to_uint64 : Text → Outcome ℕ
unfolding parse_below
parse_to_uint64 val = check_err (parse_below (2 ^ 64) val)

unfoldable pub parse_to_uint32 : Text → Outcome ℕ
unfolding parse_below
parse_to_uint32 val = check_err (parse_below (2 ^ 32) val)

unfoldable pub parse_to_uint16 : Text → Outcome ℕ
unfolding parse_below
parse_to_uint16 val = check_err (parse_below (2 ^ 16) val)

unfoldable pub parse_to_uint8 : Text → Outcome ℕ
unfolding parse_below
parse_to_uint8 val = check_err (parse_below (2 ^ 8) val)

-- A text without a colon is a panic.
abbrev pub analyzed : Text × List Text → Outcome (Text × ℕ)
analyzed (ip, []) = panicked
analyzed (ip, port ∷ _) = elim (atoi port) [ none ↦ panicked | some n ↦ returned (ip, n) ]

unfoldable pub address_analyze : Text → Outcome (Text × ℕ)
unfolding atoi split
address_analyze address = analyzed (split 58 address)
