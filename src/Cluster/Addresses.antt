-- ===== src/Cluster/Addresses.antt =====
-- Addresses: what `GetAddr` prints, `SingParse` reads.
use pole.Prelude.Splitting.{split, split-whole}
use pole.Prelude.{
  ℕ, zero, suc, ◌+◌, ◌*◌, ◌-◌, ◌/◌, ◌%◌, ◌^◌, ◌<◌, ◌≡◌, ◌≢◌, refl, ap, true, some, [], ◌∷◌, ◌++◌,
  arith, inl, inr, Text, lookup, str_eq, returned, All, ltb,
}
use pole.Prelude.Tests.{Bool-cases}
use pole.Discovery.Model.{decimal, decimal_int32}
use pole.Cluster.Member.{
  Member, server_port, get_extension_port, get_addr, is_digit, parse_digits, parse_below, parse_int,
  ports_of, member_at, sing_parse,
}

-- The digits `s`, then the digit `d`.
parse_digits-append :
    (a n d : ℕ) (s : Text)
    → parse_digits a s ≡ some n
    → d < 10
    → parse_digits a (s ++ (48 + d) ∷ []) ≡ some (n * 10 + d)
unfolding parse_digits
parse_digits-append a n d [] e lt = ground arith
parse_digits-append a n d (c ∷ s) e lt =
    ground (arith, parse_digits-append (a * 10 + (c - 48)) n d s)

pub parse_digits-decimal : (fuel n : ℕ) → n < 10 ^ fuel → parse_digits 0 (decimal fuel n) ≡ some n
unfolding parse_digits decimal
parse_digits-decimal zero n lt = ground arith
parse_digits-decimal (suc fuel) n lt = elim (Bool-cases (ltb n 10)) [
  | inl e ↦ ground (arith, e)
  | inr e ↦ ground (
    arith,
    e,
    parse_digits-append 0 (n / 10) (n % 10) (decimal fuel (n / 10))
        (parse_digits-decimal fuel (n / 10) (omega (arith, lt))) (omega arith),
  )
]

appended : {t : Text} (x : Text) (d : ℕ) → t ≡ x ++ d ∷ [] → (c : ℕ) × (s : Text) × (t ≡ c ∷ s)
appended [] d e = (d, [], e)
appended (c ∷ x) d e = (c, x ++ d ∷ [], e)

pub decimal-cons : (fuel n : ℕ) → (c : ℕ) × (s : Text) × (decimal (suc fuel) n ≡ c ∷ s)
unfolding decimal
decimal-cons fuel n = elim (Bool-cases (ltb n 10)) [
  | inl e ↦ (48 + n, [], ground (arith, e))
  | inr e ↦ appended (decimal fuel (n / 10)) (48 + n % 10) (ground (arith, e))
]

pub digits_only : (a n : ℕ) (s : Text) → parse_digits a s ≡ some n → All (λ c. is_digit c ≡ true) s
unfolding parse_digits
digits_only a n [] e = tt
digits_only a n (c ∷ s) e = (ground arith, digits_only (a * 10 + (c - 48)) n s (ground arith))

pub split-at :
    (x y : Text) → All (λ c. c ≢ 58) x → All (λ c. c ≢ 58) y → split 58 (x ++ 58 ∷ y) ≡ (x, y ∷ [])
unfolding split
split-at [] y hx hy = rw (split-whole 58 y hy) refl
split-at (c ∷ x) y hx hy = ground (arith, split-at x y hx.1 hy, hx.0)

parse_int-digits :
    (c p : ℕ) (s : Text) → parse_digits 0 (c ∷ s) ≡ some p → p < 2 ^ 31 → parse_int (c ∷ s) ≡ some p
unfolding parse_int parse_below
parse_int-digits c p s e lt = let digit = (digits_only 0 p (c ∷ s) e).0 in ground (arith, e, digit)

parse_int-decimal : (p : ℕ) → p < 2 ^ 31 → parse_int (decimal 10 p) ≡ some p
parse_int-decimal p lt =
    let d = decimal-cons 9 p in
    rw d.2 (parse_int-digits d.0 p d.1 (rw (← d.2) (parse_digits-decimal 10 p (omega arith))) lt)

pub no_colon : (s : Text) → All (λ c. is_digit c ≡ true) s → All (λ c. c ≢ 58) s
no_colon [] h = tt
no_colon (c ∷ s) h = (ground (arith, h.0), no_colon s h.1)

printed : (p : ℕ) → p < 2 ^ 31 → decimal_int32 p ≡ decimal 10 p
unfolding decimal_int32
printed p lt = ground (arith, lt)

parsed :
    (ip : Text) (p : ℕ)
    → All (λ c. c ≢ 58) ip
    → p < 2 ^ 31
    → sing_parse (ip ++ 58 ∷ decimal_int32 p) ≡ returned (member_at ip p)
unfolding sing_parse
parsed ip p h lt =
    let digits = digits_only 0 p (decimal 10 p) (parse_digits-decimal 10 p (omega (arith, lt))) in
    let parts : split 58 (ip ++ 58 ∷ decimal_int32 p) ≡ (ip, decimal 10 p ∷ []) =
      rw (printed p lt) (split-at ip (decimal 10 p) h (no_colon (decimal 10 p) digits)) in
    rw (parts, parse_int-decimal p lt, sing_parse) (rw parts refl)

port_of_at : (ip : Text) (p : ℕ) → p < 2 ^ 31 → get_extension_port server_port (member_at ip p) ≡ p
unfolding get_extension_port member_at ports_of lookup str_eq
port_of_at ip p lt = ground arith

-- Where the ip has no colon and the server port is not negative, parsing the address of a member gives
-- a member with that ip and the five ports that follow from the server port, and with the same address.
pub sing_parse-get_addr :
    (m : Member)
    → All (λ c. c ≢ 58) m.ip
    → get_extension_port server_port m < 2 ^ 31
    → (sing_parse (get_addr m) ≡ returned (member_at m.ip (get_extension_port server_port m)))
      × (get_addr (member_at m.ip (get_extension_port server_port m)) ≡ get_addr m)
unfolding get_addr member_at
sing_parse-get_addr m h lt = (
  parsed m.ip (get_extension_port server_port m) h lt,
  ap (λ q. m.ip ++ 58 ∷ decimal_int32 q) (port_of_at m.ip (get_extension_port server_port m) lt),
)
