-- ===== src/Storage/Badger/Contents.antt =====
-- Proofs on the storage on badger of server/storage/kv.go.
use pole.Prelude.{
  ◌≡◌, ◌≢◌, refl, sym, ap, ◌∙◌, Option, none, some, List, [], ◌∷◌, map, arith, All, Text, str_eq,
  Outcome, returned, panicked, if◌then◌else◌,
}
use pole.Storage.Kv.{ok, err, assigned, assigned_ext, IsKv}
use pole.Storage.Badger.{
  BadgerDb, values_at, flushed, set_next, set_all, badger_read, badger_read_batch,
  badger_write_batch, badger_storage,
}

-- The documented behaviour: what is stored can be read, a batch without an error is stored when it is
-- flushed without one, and there is no empty key.
pub record IsDb (api : BadgerDb) : Type 0 where
  pub contents : api.Db → Text → Option Text
  pub pending : api.WriteBatch → Text → Option Text
  pub empty_key : Text
  pub get-contents :
      (k v : Text) (d : api.Db)
      → k ≢ []
      → contents d k ≡ some v
      → (item : api.Item) × (api.get k d ≡ ok item) × (api.value_copy item ≡ ok v)
  pub get-nil : (d : api.Db) → api.get [] d ≡ err empty_key
  pub pending-new_write_batch :
      (d : api.Db) (j : Text) → pending (api.new_write_batch d) j ≡ contents d j
  pub pending-set :
      (k v : Text) (b : api.WriteBatch)
      → (api.set k v b).0 ≡ none
      → (j : Text) → pending (api.set k v b).1 j ≡ (if str_eq k j then some v else pending b j)
  pub contents-flush :
      (b : api.WriteBatch)
      → (api.flush b).0 ≡ none
      → (j : Text) → contents (api.flush b).1 j ≡ pending b j

module _ (api : BadgerDb) (law : IsDb api) where
  next_lem :
      (r : Option Text × api.WriteBatch)
      (f : api.WriteBatch → Outcome (Option Text) × api.WriteBatch)
      → (set_next api r f).0 ≡ returned none
      → (r.0 ≡ none) × (set_next api r f ≡ f r.1)
  next_lem (none, b) f e = (refl, refl)
  next_lem (some m, b) f e = absurd (ground (arith, e))

  set_all_lem :
      (ks vs : List Text) (b : api.WriteBatch)
      → (set_all api ks vs b).0 ≡ returned none
      → (j : Text) → law.pending (set_all api ks vs b).1 j ≡ assigned ks vs (law.pending b) j
  unfolding set_all assigned
  set_all_lem [] vs b e j = refl
  set_all_lem (k ∷ ks) [] b e j = absurd (ground (arith, e))
  set_all_lem (k ∷ ks) (v ∷ vs) b e j =
      let b' = (api.set k v b).1 in
      let n = next_lem (api.set k v b) (set_all api ks vs) e in
      ap (λ r. law.pending r.1 j) n.1
      ∙ set_all_lem ks vs b' (sym (ap (λ r. r.0) n.1) ∙ e) j
      ∙ assigned_ext ks vs (law.pending b') (λ i. if str_eq k i then some v else law.pending b i) j
          (law.pending-set k v b n.0)

  flushed_lem :
      (r : Outcome (Option Text) × api.WriteBatch)
      → (flushed api r).0 ≡ returned none
      → (r.0 ≡ returned none) × ((api.flush r.1).0 ≡ none) × ((flushed api r).1 ≡ (api.flush r.1).1)
  flushed_lem (panicked, b) e = absurd (ground (arith, e))
  flushed_lem (returned (some m), b) e = absurd (ground (arith, e))
  flushed_lem (returned none, b) e = (refl, ground (arith, e), refl)

  write_batch-contents :
      (ks vs : List Text) (d d' : api.Db)
      → badger_write_batch api ks vs d ≡ (returned none, d')
      → (j : Text) → law.contents d' j ≡ assigned ks vs (law.contents d) j
  unfolding badger_write_batch
  write_batch-contents ks vs d d' e j =
      let b = api.new_write_batch d in
      let f = flushed_lem (set_all api ks vs b) (ap (λ r. r.0) e) in
      let end : d' ≡ (api.flush (set_all api ks vs b).1).1 = sym (ap (λ r. r.1) e) ∙ f.2 in
      ap (λ x. law.contents x j) end
      ∙ law.contents-flush (set_all api ks vs b).1 f.1 j
      ∙ set_all_lem ks vs b f.0 j
      ∙ assigned_ext ks vs (law.pending b) (law.contents d) j (law.pending-new_write_batch d)

  values_at_lem :
      (ks vs : List Text) (d : api.Db)
      → All (λ k. k ≢ []) ks
      → map (law.contents d) ks ≡ map some vs
      → values_at api ks d ≡ ok vs
  unfolding values_at
  values_at_lem [] [] d filled e = refl
  values_at_lem [] (v ∷ vs) d filled e = absurd (ground (arith, e))
  values_at_lem (k ∷ ks) [] d filled e = absurd (ground (arith, e))
  values_at_lem (k ∷ ks) (v ∷ vs) d filled e =
      let g = law.get-contents k v d filled.0 (ground (arith, e)) in
      rw (g.1, values_at_lem ks vs d filled.1 (ground (arith, e))) (rw g.2 refl)

  -- The storage on badger is a key-value storage, as its clients take it.
  pub badger_storage-IsKv : IsKv (badger_storage api)
  unfolding badger_read_batch values_at
  badger_storage-IsKv = record {
    contents = law.contents;
    empty_key = law.empty_key;
    contents-write_batch = write_batch-contents;
    read_batch-contents =
        λ ks vs d filled e. ap (λ r. (returned r, d)) (values_at_lem ks vs d filled e);
    read_batch-nil = λ d. rw (law.get-nil d) refl;
  }

  -- A batch was written without an error. A read of a key that is not empty gives the last value for it
  -- in the batch, or what was stored before.
  pub badger_read-badger_write_batch :
      (ks vs : List Text) (d d' : api.Db) (k v : Text)
      → badger_write_batch api ks vs d ≡ (returned none, d')
      → k ≢ []
      → assigned ks vs (law.contents d) k ≡ some v
      → badger_read api k d' ≡ (returned (ok v), d')
  unfolding badger_read
  badger_read-badger_write_batch ks vs d d' k v e filled there =
      let g = law.get-contents k v d' filled (write_batch-contents ks vs d d' e k ∙ there) in
      rw g.1 (rw g.2 refl)
