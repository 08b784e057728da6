-- ===== src/Rds/Modifications.antt =====
-- `ExecuteModify`, `Transaction` and `CreateRds` of server/storage/rds.go. `sort.Sort` is not stable, so
-- that the order of requests with the same number is not known: it is a parameter.
pub mod Transactions
use pole.Prelude.{
  ℕ, ◌+◌, ◌%◌, ◌^◌, ◌≤◌, ltb, Bool, false, All, Option, none, some, List, [], ◌∷◌, Text, codes, ◌≡◌,
  Outcome, returned, panicked, if◌then◌else◌,
}
use pole.Storage.Kv.{Result, ok, err}

pub record SqlRequest (Arg : Type 0) : Type 0 where
  pub sql : Text
  pub args : List Arg

pub record ModifyRequest (Arg : Type 0) : Type 0 where
  pub request : SqlRequest Arg
  pub no : ℕ  -- an int, by its bits

-- `ModifyReqs.Less`, of int numbers.
unfoldable pub less : {Arg : Type 0} → ModifyRequest Arg → ModifyRequest Arg → Bool
less a b = ltb ((a.no + 2 ^ 63) % 2 ^ 64) ((b.no + 2 ^ 63) % 2 ^ 64)

-- `sql.DB` with its driver. A transaction works beside the database until it is committed.
pub record SqlApi : Type 1 where
  pub Arg : Type 0
  pub Db : Type 0
  pub Tx : Type 0
  pub sort :
      (ModifyRequest Arg → ModifyRequest Arg → Bool)
      → List (ModifyRequest Arg)
      → List (ModifyRequest Arg)
  pub begin : Db → Result Tx
  pub exec : SqlRequest Arg → Tx → Result Tx
  pub commit : Tx → Db → Option Text × Db
  pub rollback : Tx → Db → Option Text × Db

-- No element of the list should come before one that stands to its left.
abbrev pub Ordered : {A : Type 0} → (A → A → Bool) → List A → Type 0
Ordered before [] = Unit
Ordered before (x ∷ xs) = All (λ y. before y x ≡ false) xs × Ordered before xs

-- The documented behaviour: requests are sorted by their order; a rollback leaves the database as it is, and so does the commit of a
-- transaction in which nothing was done.
pub record IsSql (api : SqlApi) : Type 1 where
  pub sort-Ordered : (reqs : List (ModifyRequest api.Arg)) → Ordered less (api.sort less reqs)
  pub rollback_keeps : (tx : api.Tx) (db : api.Db) → (api.rollback tx db).1 ≡ db
  pub commit_empty :
      (tx : api.Tx) (db db' : api.Db) → api.begin db ≡ ok tx → (api.commit tx db').1 ≡ db'

module _ (api : SqlApi) where
  open api use {Arg, Db, Tx, sort, begin, exec, commit, rollback}

  -- The loop of `ExecuteModify`: an error is a panic, after which the transaction is rolled back.
  unfoldable pub exec_all : List (ModifyRequest Arg) → Tx → Outcome (Unit {0}) × Tx
  exec_all [] tx = (returned tt, tx)
  exec_all (req ∷ reqs) tx = elim (exec req.request tx) [
    | err e ↦ (panicked, tx)
    | ok tx' ↦ exec_all reqs tx'
  ]

  -- The deferred function. Its `err` is another variable than the result.
  abbrev pub finished : Outcome (Unit {0}) × Tx → Db → Option Text × Db
  finished (returned _, tx) db = (none, (commit tx db).1)
  finished (panicked, tx) db = (none, (rollback tx db).1)

  abbrev pub modified : Result Tx → List (ModifyRequest Arg) → Db → Option Text × Db
  modified (err e) reqs db = (some e, db)
  modified (ok tx) reqs db = finished (exec_all reqs tx) db

  unfoldable pub execute_modify : List (ModifyRequest Arg) → Db → Option Text × Db
  unfolding exec_all less
  execute_modify reqs db = modified (begin db) (sort less reqs) db

  -- `transaction` gives its function the database, not the transaction.
  abbrev pub after_call : Tx → Option Text × Db → Option Text × Db
  after_call tx (some e, db) = rollback tx db
  after_call tx (none, db) = commit tx db

  abbrev pub call_in : Result Tx → (Db → Option Text × Db) → Db → Option Text × Db
  call_in (err e) f db = (some e, db)
  call_in (ok tx) f db = after_call tx (f db)

  unfoldable pub transaction : (Db → Option Text × Db) → Db → Option Text × Db
  transaction f db = call_in (begin db) f db

  -- `CreateRds`, from what `sql.Open` gives, with the function that sets the database up.
  unfoldable pub create_rds : Bool → Result Db → (Db → Db) → Result Db
  create_rds is_embedded opened initialize =
      if is_embedded
      then elim opened [ err e ↦ err e | ok db ↦ ok (initialize db) ]
      else err (codes "unsupport!")
