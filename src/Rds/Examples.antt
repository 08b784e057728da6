-- ===== src/Rds/Examples.antt =====
-- A database on which the theorems about server/storage/rds.go are applied.
use pole.Prelude.{
  ℕ, Bool, true, false, inl, inr, All, All-map, if◌then◌else◌, ◌+◌, none, some, List, [], ◌∷◌, map,
  arith, Text, codes, ◌≡◌, refl,
}
use pole.Prelude.Tests.{Bool-cases}
use pole.Storage.Kv.{Result, ok, err}
use pole.Rds.Queries.{Rows, execute_query, read_record}
use pole.Rds.Queries.Shared.{row_record, last_row, execute_query_lem}
use pole.Rds.Modifications.{SqlApi, IsSql, Ordered, less, ModifyRequest, execute_modify}
use pole.Rds.Modifications.Transactions.{Executes, InOrder, goes_on, stops, execute_modify_lem}

abbrev columns : List Text
columns = codes "a" ∷ codes "b" ∷ []

abbrev first : List ℕ
first = 1 ∷ 2 ∷ []

abbrev second : List ℕ
second = 3 ∷ 4 ∷ []

abbrev two_rows : Result (Rows ℕ)
two_rows = ok (record { columns = columns; rows = map some (first ∷ second ∷ []) })

execute_query_lem_example :
    (map (read_record (execute_query two_rows).0.1) (execute_query two_rows).0.0
      ≡ map (λ _. row_record columns second) (first ∷ second ∷ []))
    × ((execute_query two_rows).1 ≡ none)
unfolding last_row
execute_query_lem_example = execute_query_lem columns first (second ∷ [])

-- A database that counts the statements that were executed in it; an empty statement is refused.
count_statement : Text → ℕ → Result ℕ
count_statement [] tx = err (codes "empty statement")
count_statement (c ∷ sql) tx = ok (tx + 1)

-- An insertion sort.
put_in :
    (ModifyRequest ℕ → ModifyRequest ℕ → Bool)
    → ModifyRequest ℕ
    → List (ModifyRequest ℕ)
    → List (ModifyRequest ℕ)
put_in before x [] = x ∷ []
put_in before x (y ∷ ys) =
    let rest = put_in before x ys in if before y x then y ∷ rest else x ∷ y ∷ ys

sorted_by :
    (ModifyRequest ℕ → ModifyRequest ℕ → Bool) → List (ModifyRequest ℕ) → List (ModifyRequest ℕ)
unfolding put_in
sorted_by before [] = []
sorted_by before (x ∷ xs) = put_in before x (sorted_by before xs)

-- What holds of both holds of all.
All-put_in :
    (P : ModifyRequest ℕ → Type 0) (x : ModifyRequest ℕ) (ys : List (ModifyRequest ℕ))
    → P x
    → All P ys
    → All P (put_in less x ys)
unfolding put_in
All-put_in P x [] hx h = (hx, tt)
All-put_in P x (y ∷ ys) hx h = elim (Bool-cases (less y x)) [
  | inl e ↦ rw e (h.0, All-put_in P x ys hx h.1)
  | inr e ↦ rw e (hx, h)
]

less_asym : (x y : ModifyRequest ℕ) → less y x ≡ true → less x y ≡ false
unfolding less
less_asym x y e = ground (arith, e)

less_trans : (x y z : ModifyRequest ℕ) → less y x ≡ false → less z y ≡ false → less z x ≡ false
unfolding less
less_trans x y z e f = ground (arith, e, f)

put_in-Ordered :
    (x : ModifyRequest ℕ) (ys : List (ModifyRequest ℕ))
    → Ordered less ys
    → Ordered less (put_in less x ys)
unfolding put_in
put_in-Ordered x [] h = (tt, tt)
put_in-Ordered x (y ∷ ys) h = elim (Bool-cases (less y x)) [
  | inl e ↦
      rw e (All-put_in (λ z. less z y ≡ false) x ys (less_asym x y e) h.0, put_in-Ordered x ys h.1)
  | inr e ↦ rw e ((e, All-map ys (λ z f. less_trans x y z e f) h.0), h)
]

sorted_by-Ordered : (xs : List (ModifyRequest ℕ)) → Ordered less (sorted_by less xs)
unfolding sorted_by
sorted_by-Ordered [] = tt
sorted_by-Ordered (x ∷ xs) = put_in-Ordered x (sorted_by less xs) (sorted_by-Ordered xs)

abbrev counting : SqlApi
counting = record {
  Arg = ℕ;
  Db = ℕ;
  Tx = ℕ;
  sort = λ before reqs. sorted_by before reqs;
  begin = λ db. ok 0;
  exec = λ req tx. count_statement req.sql tx;
  commit = λ tx db. (none, tx + db);
  rollback = λ tx db. (none, db);
}

counting_laws : IsSql counting
counting_laws = record {
  sort-Ordered = λ reqs. sorted_by-Ordered reqs;
  rollback_keeps = λ tx db. refl;
  commit_empty = λ tx db db' h. ground arith;
}

abbrev statement : Text → ModifyRequest ℕ
statement sql = record { request = record { sql = sql; args = [] }; no = 1 }

abbrev half : List (ModifyRequest ℕ)
half = statement (codes "s") ∷ statement [] ∷ statement (codes "t") ∷ []

half-Executes : Executes counting half 0 false 1
unfolding count_statement
half-Executes =
    goes_on (statement (codes "s")) (statement [] ∷ statement (codes "t") ∷ []) 0 1 false 1 refl
      (stops (statement []) (statement (codes "t") ∷ []) 1 (codes "empty statement") refl)

execute_modify_lem_example :
    (execute_modify counting half 5 ≡ (none, 5)) × InOrder (sorted_by less half)
unfolding put_in less sorted_by
execute_modify_lem_example =
    execute_modify_lem counting counting_laws half 5 0 false 1 refl half-Executes
