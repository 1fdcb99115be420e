-- ===== src/Imports/Run.antt =====
-- What an import that runs inside a request leaves behind, whether it ends or throws.
use wealth_track.Prelude.{
  ℕ, ◌+◌, ◌-◌, ◌≡◌, ◌≤◌, ◌<◌, ◌↔◌, refl, sym, ap, ◌∙◌, Bool, false, not, ◌||◌, List, [], ◌∷◌, ◌++◌,
  Option, or_else, none, some, All, any, arith, inl, inr, filter, length, ◌==◌, map, ==_iff,
  Option-cases, Bool-cases, if◌then◌else◌,
}
use wealth_track.Prelude.Text.{Text, codes}
use wealth_track.Prelude.Action.{Result, ok, err, internal, not_found, require}
use wealth_track.Rows.{UploadBatchRow, BatchStatus, UploadPreviewRow, InvestmentRecordRow}
use wealth_track.Store.{Store}
use wealth_track.Store.Queries.{find_batch, update_batch, rows_of_batch, order_rows, sql_eq}
use wealth_track.Import.{Clock, truthy, to_record}
use wealth_track.Imports.Insertion.{Stored, Inserted, whole, broken, insert_confirmed-Inserted}
use wealth_track.Imports.{
  RunReply, is_valid_row, is_new_row, reference_taken, hash_taken, insert_confirmed,
  collect_records, insert_records, run_import,
}

-- What a record takes over from its row.
abbrev Taken : Type 0
Taken = Option Text × Option Text × Option Text × Text × Text

abbrev pub taken_by : InvestmentRecordRow → Taken
taken_by r = (
  r.upload_batch_row_id, r.investment_reference, r.source_record_hash, r.customer_id,
  r.investment_amount,
)

abbrev pub taken_of : UploadPreviewRow → Taken
taken_of row = (
  some row.id,
  row.investment_reference,
  row.source_record_hash,
  or_else row.customer_id (codes "unknown"),
  or_else row.investment_amount (codes "0.0000"),
)

abbrev tail : List Taken → List Taken
tail [] = []
tail (x ∷ xs) = xs

-- Whether the record has the reference or the hash of the row, where that is not empty.
abbrev pub shares_key : UploadPreviewRow → InvestmentRecordRow → Bool
shares_key row r =
    sql_eq (truthy row.investment_reference) r.investment_reference
    || sql_eq (truthy row.source_record_hash) r.source_record_hash

-- Whether no record of the table has a key of the row.
abbrev pub is_fresh : List InvestmentRecordRow → UploadPreviewRow → Bool
is_fresh table row = not (any (shares_key row) table)

any-or :
    {A : Type 0} (p q : A → Bool) (xs : List A) → any (λ x. p x || q x) xs ≡ (any p xs || any q xs)
any-or p q [] = refl
any-or p q (x ∷ xs) = ground (arith, any-or p q xs)

any_nothing : {A : Type 0} (xs : List A) → any (λ x. false) xs ≡ false
any_nothing [] = refl
any_nothing (x ∷ xs) = any_nothing xs

reference_taken-any :
    (o : Option Text) (table : List InvestmentRecordRow)
    → reference_taken o table ≡ any (λ x. sql_eq o x.investment_reference) table
unfolding reference_taken
reference_taken-any none table = sym (any_nothing table)
reference_taken-any (some r) table = refl

hash_taken-any :
    (o : Option Text) (table : List InvestmentRecordRow)
    → hash_taken o table ≡ any (λ x. sql_eq o x.source_record_hash) table
unfolding hash_taken
hash_taken-any none table = sym (any_nothing table)
hash_taken-any (some h) table = refl

is_new_row-is_fresh :
    (table : List InvestmentRecordRow) (row : UploadPreviewRow)
    → is_new_row table row ≡ is_fresh table row
is_new_row-is_fresh table row =
    rw
      (
        reference_taken-any (truthy row.investment_reference) table,
        hash_taken-any (truthy row.source_record_hash) table,
        any-or (λ x. sql_eq (truthy row.investment_reference) x.investment_reference)
            (λ x. sql_eq (truthy row.source_record_hash) x.source_record_hash) table,
      )
      refl

module _ (clock : Clock) (new_id : ℕ → Text) (accepts : InvestmentRecordRow → Bool)
    (batch_id actor_id : Text) where
  abbrev pub valid_rows : Store → List UploadPreviewRow
  valid_rows s = filter is_valid_row (order_rows (rows_of_batch batch_id s.rows))

  -- The valid rows no key of which is in the table when the import starts.
  abbrev pub fresh_rows : Store → List UploadPreviewRow
  fresh_rows s = filter (is_fresh s.investments) (valid_rows s)

  -- One record for each row, in their order, with its reference, hash, customer and amount, of the batch
  -- and confirmed by the actor.
  abbrev pub AreOf : List UploadPreviewRow → List InvestmentRecordRow → Type 0
  AreOf rows records =
      (map taken_by records ≡ map taken_of rows)
      × All (λ r. (r.import_batch_id ≡ some batch_id) × (r.confirmed_by ≡ some actor_id)) records

  collect_records-AreOf :
      (n : ℕ) (rows : List UploadPreviewRow) (table : List InvestmentRecordRow)
      → AreOf
          (filter (is_fresh table) rows)
          (collect_records clock new_id accepts batch_id actor_id n rows table)
  unfolding collect_records to_record
  collect_records-AreOf n [] table = (refl, tt)
  collect_records-AreOf n (row ∷ rows) table =
      let rest = collect_records-AreOf (n + 1) rows table in
      elim (Bool-cases (is_fresh table row)) [
        | inl f ↦
            rw (f, is_new_row-is_fresh table row ∙ f)
              (ap (λ xs. taken_of row ∷ xs) rest.0, ((refl, refl), rest.1))
        | inr f ↦ rw (f, is_new_row-is_fresh table row ∙ f) rest
      ]

  length-filter : {A : Type 0} (p : A → Bool) (xs : List A) → length (filter p xs) ≤ length xs
  length-filter p [] = omega arith
  length-filter p (x ∷ xs) = ground (arith, length-filter p xs)

  abbrev records_of : Store → List InvestmentRecordRow
  records_of s =
      collect_records clock new_id accepts batch_id actor_id 0 (valid_rows s) s.investments

  length-records :
      (rows : List UploadPreviewRow) (records : List InvestmentRecordRow)
      → map taken_by records ≡ map taken_of rows
      → length records ≡ length rows
  length-records [] [] h = refl
  length-records [] (r ∷ records) h = cc
  length-records (row ∷ rows) [] h = cc
  length-records (row ∷ rows) (r ∷ records) h =
      omega (arith, length-records rows records (ap tail h))

  -- How an import that runs inside a request may end.
  pub data Run (s : Store) : Result RunReply × Store → Type 0 where
    missing :
        find_batch batch_id s.batches ≡ none → Run s (err (not_found "Upload batch not found"), s)
    completed :
        (batch : UploadBatchRow)
        → find_batch batch_id s.batches ≡ some batch
        → (records : List InvestmentRecordRow) → AreOf (fresh_rows s) records
        → Stored accepts s.investments records records
        → (reply : RunReply) (t : Store) → t.investments ≡ s.investments ++ records
        → reply.record_ids ≡ map (λ r. r.id) records
        → reply.imported_count ≡ length (fresh_rows s)
        → reply.imported_count + reply.skipped_count ≡ length (valid_rows s)
        → (reply.status ≡ BatchStatus.imported ↔ reply.skipped_count ≡ 0)
        → t.batches ≡ update_batch batch_id (λ b. record b { status = reply.status }) s.batches
        → Run s (ok reply, t)
    refused :
        (batch : UploadBatchRow)
        → find_batch batch_id s.batches ≡ some batch
        → (records taken : List InvestmentRecordRow) → AreOf (fresh_rows s) records
        → Stored accepts s.investments records taken
        → length taken < length records
        → (t : Store) → t.investments ≡ s.investments ++ taken
        → t.batches ≡ s.batches
        → Run s (err (internal "INSERT refused"), t)

  status_of_counts :
      (m n : ℕ)
      → m ≤ n
      → ((if m == n then BatchStatus.imported else BatchStatus.partially_imported)
            ≡ BatchStatus.imported
          ↔ n - m ≡ 0)
  status_of_counts m n h = ground (arith, ==_iff m n)

  records-AreOf : (s : Store) → AreOf (fresh_rows s) (records_of s)
  records-AreOf s = collect_records-AreOf 0 (valid_rows s) s.investments

  count_records : (s : Store) → length (records_of s) ≡ length (fresh_rows s)
  count_records s = length-records (fresh_rows s) (records_of s) (records-AreOf s).0

  count_within : (s : Store) → length (records_of s) ≤ length (valid_rows s)
  count_within s =
      omega (arith, count_records s, length-filter (is_fresh s.investments) (valid_rows s))

  run_found :
      (s : Store) (batch : UploadBatchRow) (end : Result (Unit {0}) × List InvestmentRecordRow)
      → find_batch batch_id s.batches ≡ some batch
      → insert_confirmed accepts (records_of s) s.investments ≡ end
      → Inserted accepts (records_of s) s.investments end
      → Run s (run_import clock new_id accepts batch_id actor_id s)
  unfolding run_import insert_records
  run_found s batch end found e (whole k f) =
      rw (found, require, e)
        (completed batch found (records_of s) (records-AreOf s) k _ _ f refl (count_records s)
          (omega (arith, count_within s)) (status_of_counts _ _ (count_within s)) refl)
  run_found s batch end found e (broken taken k l f) =
      rw (found, require, e)
        (refused batch found (records_of s) taken (records-AreOf s) k l _ f refl)

  -- An import that runs inside a request ends in one of three ways. The batch is missing, and nothing
  -- changes. Or the batch is there, and a record is made for each valid row no key of which is in
  -- the table at the start, with its reference, hash, customer and amount, and for no other row. Then either all of these records are stored, the
  -- reply counts them and the other valid rows, and the batch gets the status of the reply, which is
  -- imported exactly when nothing was skipped; or the call throws, the batch keeps its status, and of
  -- the records exactly those are stored, fewer than all, that the database accepts and that have no
  -- key of the table or of one stored before.
  pub run_import-Run : (s : Store) → Run s (run_import clock new_id accepts batch_id actor_id s)
  unfolding run_import
  run_import-Run s = elim (Option-cases (find_batch batch_id s.batches)) [
    | inl e ↦ rw (e, require) (missing e)
    | inr (batch, e) ↦
        run_found s batch _ e refl (insert_confirmed-Inserted accepts (records_of s) s.investments)
  ]
