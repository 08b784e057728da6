-- ===== src/Rds/Queries.antt =====
-- `ExecuteQuery` of server/storage/rds.go and the mappers of rows. A placeholder that `Scan` writes to
-- is a cell, named by the number of its column; the records hold cells, as the source's hold pointers.
pub mod Shared
use pole.Prelude.{
  ℕ, zero, suc, Option, none, some, List, [], ◌∷◌, ◌++◌, map, get_elem?, Text, Dict, insert, lookup,
  Outcome, returned, panicked,
}
use pole.Storage.Kv.{Result, ok, err}

-- A record's columns, each with its cell.
abbrev pub CellRecord : Type 0
CellRecord = Dict ℕ

-- `record[columns[i]] = d`, for each column from number `i` on.
unfoldable pub fill : List Text → ℕ → CellRecord → CellRecord
fill [] i r = r
fill (column ∷ columns) i r = fill columns (suc i) (insert column i r)

-- What `Query` gives: the names of the columns, and what `Scan` stores of each row in the cells, with
-- `none` for an error.
pub record Rows (V : Type 0) : Type 0 where
  pub columns : List Text
  pub rows : List (Option (List V))

-- The records and the cells.
abbrev pub Scanned : Type 0 → Type 0
Scanned V = List CellRecord × List V

module _ {V : Type 0} where
  -- The loop over the rows; an error of `Scan` is a panic of `Runnable`.
  unfoldable pub scan_rows :
      List Text → List (Option (List V)) → Scanned V → Outcome (Unit {0}) × Scanned V
  unfolding fill
  scan_rows columns [] s = (returned tt, s)
  scan_rows columns (none ∷ rows) s = (panicked, s)
  scan_rows columns (some values ∷ rows) (results, cells) =
      scan_rows columns rows (results ++ fill columns 0 [] ∷ [], values)

  -- What the deferred function leaves: a panic clears the results; its `err` is another variable.
  abbrev pub recovered : Outcome (Unit {0}) × Scanned V → Scanned V × Option Text
  recovered (returned _, s) = (s, none)
  recovered (panicked, (results, cells)) = (([], cells), none)

  unfoldable pub execute_query : Result (Rows V) → Scanned V × Option Text
  unfolding scan_rows
  execute_query (err e) = (([], []), none)
  execute_query (ok r) = recovered (scan_rows r.columns r.rows ([], []))

  -- A record as its reader finds it.
  unfoldable pub read_record : List V → CellRecord → Dict (Option V)
  read_record cells [] = []
  read_record cells ((column, i) ∷ r) = (column, get_elem? cells i) ∷ read_record cells r

-- `MapperCache`, with `RegisterMapper` and `RowMap`.
module _ {Row Entity : Type 0} where
  unfoldable pub register_mapper : Text → (Row → Entity) → Dict (Row → Entity) → Dict (Row → Entity)
  register_mapper table mapper cache = insert table mapper cache

  unfoldable pub row_map : Text → Row → Dict (Row → Entity) → Outcome Entity
  row_map table result cache = elim (lookup table cache) [
    | none ↦ panicked
    | some mapper ↦ returned (mapper result)
  ]
