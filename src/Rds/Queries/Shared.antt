-- ===== src/Rds/Queries/Shared.antt =====
-- What the results of `ExecuteQuery` of server/storage/rds.go read as.
use pole.Prelude.{
  Option, none, some, List, [], ◌∷◌, ◌++◌, map, Text, Dict, ◌≡◌, refl, ap, ◌∙◌, returned, panicked,
}
use mathlib.Core.List.{append_assoc}
use pole.Storage.Kv.{ok}
use pole.Rds.Queries.{CellRecord, fill, Scanned, scan_rows, recovered, execute_query, read_record}

module _ {V : Type 0} where
  unfoldable pub last_row : List V → List (List V) → List V
  last_row row [] = row
  last_row row (next ∷ rows) = last_row next rows

  -- The record of a row.
  unfoldable pub row_record : List Text → List V → Dict (Option V)
  unfolding read_record fill
  row_record columns row = read_record row (fill columns 0 [])

  repeated : List Text → List (List V) → List CellRecord
  repeated columns [] = []
  repeated columns (row ∷ rows) = fill columns 0 [] ∷ repeated columns rows

  scan_rows_lem :
      (columns : List Text) (row : List V) (rows : List (List V)) (results : List CellRecord)
      (cells : List V)
      → scan_rows columns (map some (row ∷ rows)) (results, cells)
        ≡ (returned tt, (results ++ repeated columns (row ∷ rows), last_row row rows))
  unfolding scan_rows last_row repeated
  scan_rows_lem columns row [] results cells = refl
  scan_rows_lem columns row (next ∷ rows) results cells =
      scan_rows_lem columns next rows (results ++ fill columns 0 [] ∷ []) row
      ∙ ap (λ rs. (returned tt, (rs, last_row next rows)))
          (append_assoc results (fill columns 0 [] ∷ []) (repeated columns (next ∷ rows)))

  read_repeated :
      (cells : List V) (columns : List Text) (rows : List (List V))
      → map (read_record cells) (repeated columns rows)
        ≡ map (λ _. read_record cells (fill columns 0 [])) rows
  unfolding repeated
  read_repeated cells columns [] = refl
  read_repeated cells columns (row ∷ rows) =
      ap (λ rs. read_record cells (fill columns 0 []) ∷ rs) (read_repeated cells columns rows)

  -- A query whose rows can all be read gives a record for each row, and every one of them reads
  -- as the last row.
  pub execute_query_lem :
      (columns : List Text) (row : List V) (rows : List (List V))
      → (map
            (read_record
              (execute_query (ok (record { columns = columns; rows = map some (row ∷ rows) }))).0.1)
            (execute_query (ok (record { columns = columns; rows = map some (row ∷ rows) }))).0.0
          ≡ map (λ _. row_record columns (last_row row rows)) (row ∷ rows))
        × ((execute_query (ok (record { columns = columns; rows = map some (row ∷ rows) }))).1
            ≡ none)
  unfolding execute_query row_record
  execute_query_lem columns row rows =
      let done = scan_rows_lem columns row rows [] [] in
      (
        ap (λ r. map (read_record (recovered r).0.1) (recovered r).0.0) done
            ∙ read_repeated (last_row row rows) columns (row ∷ rows),
        ap (λ r. (recovered r).1) done,
      )

  scan_panics :
      (columns : List Text) (before after : List (Option (List V))) (s : Scanned V)
      → (scan_rows columns (before ++ none ∷ after) s).0 ≡ panicked
  unfolding scan_rows
  scan_panics columns [] after s = refl
  scan_panics columns (none ∷ before) after s = refl
  scan_panics columns (some row ∷ before) after (results, cells) =
      scan_panics columns before after (results ++ fill columns 0 [] ∷ [], row)

  -- A row that cannot be read leaves no records, and no error either.
  pub execute_query_silent :
      (columns : List Text) (before after : List (Option (List V)))
      → ((execute_query (ok (record { columns = columns; rows = before ++ none ∷ after }))).0.0
          ≡ [])
        × ((execute_query (ok (record { columns = columns; rows = before ++ none ∷ after }))).1
            ≡ none)
  unfolding execute_query
  execute_query_silent columns before after =
      let r = scan_rows columns (before ++ none ∷ after) ([], []) in
      let e = scan_panics columns before after ([], []) in
      (ap (λ o. (recovered (o, r.1)).0.0) e, ap (λ o. (recovered (o, r.1)).1) e)
