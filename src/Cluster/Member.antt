-- ===== src/Cluster/Member.antt =====
-- `Member` of server/cluster/member_manager.go, and the parsing of addresses in member_utils.go.
use pole.Prelude.Splitting.{split}
use pole.Prelude.{
  ℕ, zero, suc, ◌+◌, ◌*◌, ◌-◌, ◌%◌, ◌^◌, Bool, ◌&&◌, ◌==◌, Option, none, some, List, [], ◌∷◌, ◌++◌,
  length, Text, codes, Dict, lookup, str_eq, Outcome, returned, panicked, ltb, leb, if◌then◌else◌,
}
use pole.Discovery.Model.{decimal_int32, to_int32}

abbrev pub healthy : ℕ
healthy = 0

abbrev pub down : ℕ
down = 1

abbrev pub impeach : ℕ
impeach = 2

pub record Member : Type 0 where
  pub member_id : ℕ  -- uint64
  pub identifier : Text
  pub ip : Text
  pub extension_ports : Dict ℕ  -- int32, by their bits
  pub meta_data : Dict Text
  pub status : ℕ
  pub access_fail_cnt : ℕ  -- int32, by its bits

abbrev pub server_port : Text
server_port = codes "server-port"

-- A missing key reads as 0.
unfoldable pub get_extension_port : Text → Member → ℕ
get_extension_port key m = elim (lookup key m.extension_ports) [ none ↦ 0 | some port ↦ port ]

unfoldable pub get_addr : Member → Text
unfolding get_extension_port decimal_int32
get_addr m = m.ip ++ (codes ":" ++ decimal_int32 (get_extension_port server_port m))

-- `GetIdentifier`, which stores what it returns.
unfoldable pub get_identifier : Member → Text × Member
unfolding get_addr
get_identifier m =
    if str_eq m.identifier []
    then (get_addr m, record m { identifier = get_addr m })
    else (m.identifier, m)

abbrev pub is_digit : ℕ → Bool
is_digit c = leb 48 c && leb c 57

-- The digits of a number, after those whose value is `n`.
unfoldable pub parse_digits : ℕ → Text → Option ℕ
parse_digits n [] = some n
parse_digits n (c ∷ s) =
    let rest = parse_digits (n * 10 + (c - 48)) s in if is_digit c then rest else none

-- `none` is the error for no digits, or for a number out of range.
unfoldable pub parse_below : ℕ → Text → Option ℕ
unfolding parse_digits
parse_below bound [] = none
parse_below bound (c ∷ s) = elim (parse_digits 0 (c ∷ s)) [
  | none ↦ none
  | some n ↦ if ltb n bound then some n else none
]

-- `strconv.ParseInt(s, 10, 32)` on its int64 result, by its bits; `none` is the error.
unfoldable pub parse_int : Text → Option ℕ
unfolding parse_below
parse_int [] = none
parse_int (c ∷ s) =
    if c == 45
    then elim (parse_below (2 ^ 31 + 1) s) [ none ↦ none | some n ↦ some ((2 ^ 64 - n) % 2 ^ 64) ]
    else if c == 43
    then parse_below (2 ^ 31) s
    else parse_below (2 ^ 31) (c ∷ s)

unfoldable pub ports_of : ℕ → Dict ℕ
ports_of port =
    (server_port, to_int32 port)
    ∷ (codes "discovery-port", to_int32 (port + 100))
    ∷ (codes "config-port", to_int32 (port + 200))
    ∷ (codes "cp-port", to_int32 (port + 300))
    ∷ (codes "ap-port", to_int32 (port + 400))
    ∷ []

unfoldable pub member_at : Text → ℕ → Member
unfolding ports_of
member_at ip port = record {
  member_id = 0;
  identifier = [];
  ip = ip;
  extension_ports = ports_of port;
  meta_data = [];
  status = healthy;
  access_fail_cnt = 0;
}

-- A part that is missing, or that is no number, is a panic.
unfoldable pub sing_parse : Text → Outcome Member
unfolding split parse_int member_at
sing_parse s =
    let parts : Text × List Text = split 58 s in
    elim parts.1 [
      | [] ↦ panicked
      | port ∷ _ ↦ elim (parse_int port) [
        | none ↦ panicked
        | some n ↦ returned (member_at parts.0 n)
      ]
    ]

unfoldable pub parse_all : List Text → Outcome (List (Option Member))
unfolding sing_parse
parse_all [] = returned []
parse_all (s ∷ arr) = elim (sing_parse s) [
  | panicked ↦ panicked
  | returned m ↦ elim (parse_all arr) [ panicked ↦ panicked | returned ms ↦ returned (some m ∷ ms) ]
]

-- `make([]*Member, n)`
unfoldable pub nils : ℕ → List (Option Member)
nils zero = []
nils (suc n) = none ∷ nils n

-- `MultiParse` appends to a slice that has one nil for each address already.
unfoldable pub multi_parse : List Text → Outcome (List (Option Member))
unfolding parse_all nils
multi_parse arr = elim (parse_all arr) [
  | panicked ↦ panicked
  | returned ms ↦ returned (nils (length arr) ++ ms)
]
