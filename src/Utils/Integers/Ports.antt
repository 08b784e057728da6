-- ===== src/Utils/Integers/Ports.antt =====
-- What `AddressAnalyze` of utils/common_util.go reads of a member's address.
use pole.Prelude.{
  ℕ, ◌+◌, ◌-◌, ◌^◌, ◌<◌, ◌≢◌, ltb, none, some, ◌∷◌, All, returned, panicked, false, ◌≡◌, ap, ◌∙◌,
  arith, inl, inr, if◌then◌else◌,
}
use pole.Prelude.Tests.{Bool-cases}
use pole.Discovery.Model.{decimal, decimal_int32}
use pole.Cluster.Member.{Member, server_port, get_extension_port, get_addr}
use pole.Cluster.Addresses.{parse_digits-decimal, digits_only, split-at, no_colon}
use pole.Utils.Integers.{atoi, analyzed, address_analyze}
use pole.Utils.Integers.Widths.{atoi-decimal, parse_below-decimal}

-- An int32 as an int, by their bits.
abbrev pub to_int : ℕ → ℕ
to_int bits = if ltb bits (2 ^ 31) then bits else bits + (2 ^ 64 - 2 ^ 32)

negative :
    (q : ℕ)
    → q < 2 ^ 32
    → ltb q (2 ^ 31) ≡ false
    → atoi (45 ∷ decimal 10 (2 ^ 32 - q)) ≡ some (q + (2 ^ 64 - 2 ^ 32))
unfolding atoi
negative q lt e =
    ground (arith, parse_below-decimal 9 (2 ^ 63 + 1) (2 ^ 32 - q) (omega (arith, lt)), e, lt)

digits_of : (n : ℕ) → n < 10 ^ 10 → All (λ c. c ≢ 58) (decimal 10 n)
digits_of n lt =
    no_colon (decimal 10 n) (digits_only 0 n (decimal 10 n) (parse_digits-decimal 10 n lt))

-- A port as it is printed.
port_printed :
    (q : ℕ)
    → q < 2 ^ 32
    → (atoi (decimal_int32 q) ≡ some (to_int q)) × All (λ c. c ≢ 58) (decimal_int32 q)
unfolding decimal_int32
port_printed q lt = elim (Bool-cases (ltb q (2 ^ 31))) [
  | inl e ↦
      rw (e)
        (atoi-decimal 9 q (omega (arith, lt)) (omega (arith, lt)), digits_of q (omega (arith, lt)))
  | inr e ↦ rw (e) (negative q lt e, (omega arith, digits_of (2 ^ 32 - q) (omega (arith, lt))))
]

-- Where the ip has no colon, AddressAnalyze of a member's address returns its ip and its server port, a
-- negative one too.
pub address_analyze-get_addr :
    (m : Member)
    → All (λ c. c ≢ 58) m.ip
    → get_extension_port server_port m < 2 ^ 32
    → address_analyze (get_addr m) ≡ returned (m.ip, to_int (get_extension_port server_port m))
unfolding address_analyze get_addr
address_analyze-get_addr m h lt =
    let q = get_extension_port server_port m in
    let port = port_printed q lt in
    ap analyzed (split-at m.ip (decimal_int32 q) h port.1)
    ∙ ap (λ o. elim o [ none ↦ panicked | some n ↦ returned (m.ip, n) ]) port.0
