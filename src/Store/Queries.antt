-- ===== src/Store/Queries.antt =====
-- Queries by key, updates in place, and the unique keys of `investment_records`.
use wealth_track.Prelude.{
  ℕ, Bool, false, not, ◌&&◌, ◌||◌, List, [], ◌∷◌, ◌++◌, Option, none, some, find, filter, leb, any,
  if◌then◌else◌,
}
use wealth_track.Prelude.Text.{Text, text_eq}
use wealth_track.Rows.{
  UploadBatchRow, UploadPreviewRow, UploadValidationErrorRow, InvestmentRecordRow,
}

-- `UPDATE … SET … WHERE p`
abbrev pub update_where : {A : Type 0} → (A → Bool) → (A → A) → List A → List A
update_where p f [] = []
update_where p f (x ∷ xs) = (if p x then f x else x) ∷ update_where p f xs

-- `SELECT * FROM upload_batches WHERE id = ? LIMIT 1`
unfoldable pub find_batch : Text → List UploadBatchRow → Option UploadBatchRow
find_batch id = find (λ b. text_eq b.id id)

-- `UPDATE upload_batches SET … WHERE id = ?`
unfoldable pub update_batch :
    Text → (UploadBatchRow → UploadBatchRow) → List UploadBatchRow → List UploadBatchRow
update_batch id = update_where (λ b. text_eq b.id id)

-- `SELECT * FROM upload_batch_rows WHERE upload_batch_id = ?`
unfoldable pub rows_of_batch : Text → List UploadPreviewRow → List UploadPreviewRow
rows_of_batch id = filter (λ r. text_eq r.upload_batch_id id)

-- `DELETE FROM upload_batch_rows WHERE upload_batch_id = ?`
unfoldable pub rows_of_others : Text → List UploadPreviewRow → List UploadPreviewRow
rows_of_others id = filter (λ r. not (text_eq r.upload_batch_id id))

-- `SELECT * FROM upload_validation_errors WHERE upload_batch_id = ?`
unfoldable pub errors_of_batch :
    Text → List UploadValidationErrorRow → List UploadValidationErrorRow
errors_of_batch id = filter (λ e. text_eq e.upload_batch_id id)

-- `DELETE FROM upload_validation_errors WHERE upload_batch_id = ?`
unfoldable pub errors_of_others :
    Text → List UploadValidationErrorRow → List UploadValidationErrorRow
errors_of_others id = filter (λ e. not (text_eq e.upload_batch_id id))

-- SQL's `=` between two nullable columns: `NULL` equals nothing.
abbrev pub sql_eq : Option Text → Option Text → Bool
sql_eq none b = false
sql_eq (some a) none = false
sql_eq (some a) (some b) = text_eq a b

-- The unique keys of `investment_records`: the reference and the source hash.
unfoldable pub collides : InvestmentRecordRow → InvestmentRecordRow → Bool
collides r s =
    sql_eq r.investment_reference s.investment_reference
    || sql_eq r.source_record_hash s.source_record_hash

-- `INSERT INTO investment_records`: `none` when the database refuses the row, for a unique key or
-- for one of its other checks (`accepts`).
unfoldable pub insert_investment :
    (InvestmentRecordRow → Bool)
    → InvestmentRecordRow
    → List InvestmentRecordRow
    → Option (List InvestmentRecordRow)
unfolding collides
insert_investment accepts r table =
    if accepts r && not (any (collides r) table) then some (table ++ r ∷ []) else none

-- `ORDER BY key ASC`
module _ {A : Type 0} (key : A → ℕ) where
  unfoldable insert_by : A → List A → List A
  insert_by r [] = r ∷ []
  insert_by r (x ∷ xs) = if leb (key r) (key x) then r ∷ x ∷ xs else x ∷ insert_by r xs

  unfoldable pub order_by : List A → List A
  unfolding insert_by
  order_by [] = []
  order_by (r ∷ rows) = insert_by r (order_by rows)

-- `ORDER BY csv_row_number ASC`
unfoldable pub order_rows : List UploadPreviewRow → List UploadPreviewRow
order_rows = order_by (λ r. r.csv_row_number)
