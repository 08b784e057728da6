-- ===== src/Rds/Modifications/Transactions.antt =====
-- What `ExecuteModify` and `Transaction` of server/storage/rds.go leave in the database.
use pole.Prelude.{
  ℕ, ◌+◌, ◌%◌, ◌^◌, ◌≤◌, All, All-map, arith, Bool, true, false, List, [], ◌∷◌, Option, none, some,
  Text, Outcome, returned, panicked, ◌≡◌, refl, ap, ◌∙◌, if◌then◌else◌,
}
use pole.Storage.Kv.{ok, err}
use pole.Rds.Modifications.{
  SqlApi, IsSql, Ordered, less, ModifyRequest, exec_all, finished, modified, execute_modify,
  after_call, call_in, transaction,
}

-- An int by its bits, moved so that its order is the order of the integers.
abbrev number : {Arg : Type 0} → ModifyRequest Arg → ℕ
number r = (r.no + 2 ^ 63) % 2 ^ 64

abbrev pub InOrder : {Arg : Type 0} → List (ModifyRequest Arg) → Type 0
InOrder [] = Unit
InOrder (x ∷ xs) = All (λ y. number x ≤ number y) xs × InOrder xs

not_less : {Arg : Type 0} (x y : ModifyRequest Arg) → less y x ≡ false → number x ≤ number y
unfolding less
not_less x y e = ground (arith, e)

Ordered-InOrder :
    {Arg : Type 0} (reqs : List (ModifyRequest Arg)) → Ordered less reqs → InOrder reqs
Ordered-InOrder [] h = tt
Ordered-InOrder (x ∷ xs) h = (All-map xs (λ y e. not_less x y e) h.0, Ordered-InOrder xs h.1)

module _ (api : SqlApi) where
  -- What comes of executing the statements of a list in a transaction, one after the other: they are all
  -- executed, or one gives an error, and none after it is executed.
  pub data Executes : List (ModifyRequest api.Arg) → api.Tx → Bool → api.Tx → Type 0 where
    all_done : (tx : api.Tx) → Executes [] tx true tx
    stops :
        (req : ModifyRequest api.Arg) (reqs : List (ModifyRequest api.Arg)) (tx : api.Tx) (e : Text)
        → api.exec req.request tx ≡ err e
        → Executes (req ∷ reqs) tx false tx
    goes_on :
        (req : ModifyRequest api.Arg) (reqs : List (ModifyRequest api.Arg)) (tx tx' : api.Tx)
        (done : Bool) (last : api.Tx)
        → api.exec req.request tx ≡ ok tx'
        → Executes reqs tx' done last
        → Executes (req ∷ reqs) tx done last

  abbrev outcome_of : Bool → Outcome (Unit {0})
  outcome_of true = returned tt
  outcome_of false = panicked

  exec_all_lem :
      (reqs : List (ModifyRequest api.Arg)) (tx : api.Tx) (done : Bool) (last : api.Tx)
      → Executes reqs tx done last
      → exec_all api reqs tx ≡ (outcome_of done, last)
  unfolding exec_all
  exec_all_lem [] tx _ _ (all_done _) = refl
  exec_all_lem (req ∷ reqs) tx _ _ (stops _ _ _ e fails) = rw (fails, exec_all) refl
  exec_all_lem (req ∷ reqs) tx done last (goes_on _ _ _ tx' _ _ runs rest) =
      rw (runs, exec_all) (exec_all_lem reqs tx' done last rest)

module _ (api : SqlApi) (laws : IsSql api) where
  open api use {Arg, Db, Tx, sort, begin, commit}

  -- Where the statements, in the order in which they are sorted, are executed one after the other in
  -- the transaction that has begun, all of them or those before the first that gives an error:
  -- ExecuteModify commits the transaction with all of them, or else leaves the database as it was;
  -- and it gives no error either way. No statement stands after one with a greater number.
  pub execute_modify_lem :
      (reqs : List (ModifyRequest Arg)) (db : Db) (tx : Tx) (done : Bool) (last : Tx)
      → begin db ≡ ok tx
      → Executes api (sort less reqs) tx done last
      → (execute_modify api reqs db ≡ (none, if done then (commit last db).1 else db))
        × InOrder (sort less reqs)
  unfolding execute_modify
  execute_modify_lem reqs db tx done last h runs = (
    ap (λ r. modified api r (sort less reqs) db) h
        ∙ ap (λ r. finished api r db) (exec_all_lem api (sort less reqs) tx done last runs)
        ∙ ended done,
    Ordered-InOrder (sort less reqs) (laws.sort-Ordered reqs),
  )
    where
      ended :
          (b : Bool)
          → finished api (outcome_of api b, last) db ≡ (none, if b then (commit last db).1 else db)
      ended true = refl
      ended false = ap (λ d. (none, d)) (laws.rollback_keeps last db)

  kept_after :
      (tx : Tx) (r : Option Text × Db) (db : Db) → begin db ≡ ok tx → (after_call api tx r).1 ≡ r.1
  kept_after tx (some e, db') db h = laws.rollback_keeps tx db'
  kept_after tx (none, db') db h = laws.commit_empty tx db db' h

  -- Transaction keeps all that its function did to the database, also where the function gives an
  -- error; that error is not returned, but the one of the rollback, if any.
  pub transaction_lem :
      (f : Db → Option Text × Db) (db : Db) (tx : Tx)
      → begin db ≡ ok tx
      → ((transaction api f db).1 ≡ (f db).1)
        × ((e : Text) → (f db).0 ≡ some e → (transaction api f db).0 ≡ (api.rollback tx (f db).1).0)
  unfolding transaction
  transaction_lem f db tx h = (
    ap (λ r. (call_in api r f db).1) h ∙ kept_after tx (f db) db h,
    λ e fails.
        ap (λ r. (call_in api r f db).0) h ∙ ap (λ o. (after_call api tx (o, (f db).1)).0) fails,
  )
