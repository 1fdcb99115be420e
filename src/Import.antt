-- ===== src/Import.antt =====
-- apps/worker/src/processors/import.processor.ts: the valid rows of a batch become investment
-- records, each by an INSERT of its own.
pub mod Coverage
pub mod Status
pub mod Independence
pub mod Preload
use wealth_track.Prelude.{
  ℕ, ◌+◌, Bool, true, false, not, ◌&&◌, ◌||◌, List, [], ◌∷◌, ◌++◌, map, Option, none, some, or_else,
  length, filter, leb, ltb, if◌then◌else◌,
}
use wealth_track.Prelude.Text.{Text, codes, is_empty, text_eq, includes}
use wealth_track.Prelude.Action.{Action, ok, pure, gets, modify, ◌>>=◌, ◌>>◌}
use wealth_track.Csv.{value_of}
use wealth_track.RowMapper.{to_camel_case_row}
use wealth_track.Rows.{
  Time, UploadBatchRow, UploadPreviewRow, InvestmentRecordRow, BatchStatus, ConfirmImportJob,
  RowStatus, CustomerType, FundType, TenorCategory, DataSource, ImportStatus, RecordStatus,
}
use wealth_track.Store.{Store}
use wealth_track.Store.Queries.{
  update_batch, update_where, rows_of_batch, order_rows, insert_investment,
}

-- `row.investmentReference` where it is truthy.
unfoldable pub truthy : Option Text → Option Text
truthy none = none
truthy (some []) = none
truthy (some (c ∷ s)) = some (c ∷ s)

-- A JavaScript set of references; `none` is `undefined`.
abbrev pub References : Type 0
References = List (Option Text)

abbrev same : Option Text → Option Text → Bool
same none none = true
same (some a) (some b) = text_eq a b
same _ _ = false

-- `set.has(reference)`
unfoldable pub has : Option Text → References → Bool
has reference [] = false
has reference (r ∷ refs) = same r reference || has reference refs

-- `set.add(reference)`
unfoldable pub add : Option Text → References → References
unfolding has
add reference refs = if has reference refs then refs else reference ∷ refs

add_all : List (Option Text) → References → References
add_all [] refs = refs
add_all (r ∷ rs) refs = add_all rs (add r refs)

-- The references of the rows, without the falsy ones.
abbrev references_of : List UploadPreviewRow → List Text
references_of [] = []
references_of (row ∷ rows) = elim (truthy row.investment_reference) [
  | none ↦ references_of rows
  | some r ↦ r ∷ references_of rows
]

-- `SELECT investment_reference … WHERE investment_reference IN (…)`
select_references : List Text → List InvestmentRecordRow → List Text
select_references wanted [] = []
select_references wanted (record_ ∷ table) = elim record_.investment_reference [
  | none ↦ select_references wanted table
  | some r ↦
      let later = select_references wanted table in if includes wanted r then r ∷ later else later
]

-- `existing.map((r) => r.investment_reference)`, on rows whose columns `selectMany` has renamed.
reference_column : Text → Option Text
unfolding to_camel_case_row value_of text_eq
reference_column r =
    value_of (codes "investment_reference")
      (to_camel_case_row ((codes "investment_reference", r) ∷ []))

unfoldable pub existing_references : List UploadPreviewRow → List InvestmentRecordRow → References
unfolding add_all select_references reference_column
existing_references rows table =
    add_all (map reference_column (select_references (references_of rows) table)) []

-- The job's constants: the clock, today's date, and the identifiers that `createId` gives in turn.
pub record Clock : Type 0 where
  pub now : Time
  pub today : Text

-- `importedCount`, `existingRefs` and the table.
pub record Progress : Type 0 where
  pub imported_count : ℕ
  pub existing_refs : References
  pub table : List InvestmentRecordRow

pub record Reply : Type 0 where
  pub status : BatchStatus
  pub batch_id : Text
  pub imported_count : ℕ

-- `existingRefs.add(row.investmentReference)`, if that is truthy.
abbrev track : Option Text → References → References
track none refs = refs
track (some r) refs = add (some r) refs

-- `row.investmentReference && existingRefs.has(row.investmentReference)`
abbrev is_known : Option Text → References → Bool
is_known none refs = false
is_known (some r) refs = has (some r) refs

-- What an INSERT makes of the loop's variables: a refused one is logged and skipped.
insert_outcome : Option Text → Progress → Option (List InvestmentRecordRow) → Progress
insert_outcome reference p none = p
insert_outcome reference p (some table) = record {
  imported_count = p.imported_count + 1;
  existing_refs = track reference p.existing_refs;
  table = table;
}

unfoldable pub final_status : ℕ → Progress → BatchStatus
final_status expected p =
    if leb expected (p.imported_count + length p.existing_refs)
    then BatchStatus.imported
    else if ltb 0 p.imported_count
    then BatchStatus.partially_imported
    else BatchStatus.imported

abbrev is_importable : BatchStatus → Bool
is_importable BatchStatus.validated = true
is_importable BatchStatus.partially_imported = true
is_importable _ = false

abbrev is_valid_row : UploadPreviewRow → Bool
is_valid_row row = elim row.row_status [ RowStatus.valid ↦ true | _ ↦ false ]

-- `… WHERE upload_batch_id = ? AND row_status = 'valid' ORDER BY csv_row_number ASC`
unfoldable pub importable_rows : Text → List UploadPreviewRow → List UploadPreviewRow
unfolding rows_of_batch order_rows
importable_rows id rows = order_rows (filter is_valid_row (rows_of_batch id rows))

module _ (clock : Clock) (new_id : ℕ → Text) (job : ConfirmImportJob) where
  unfoldable pub to_record : ℕ → UploadPreviewRow → InvestmentRecordRow
  to_record n row = record {
    id = new_id n;
    customer_id = or_else row.customer_id (codes "unknown");
    customer_name = or_else row.customer_name (codes "Unknown Customer");
    customer_type = or_else row.customer_type CustomerType.returning;
    mobilisation_date = or_else row.mobilisation_date clock.today;
    investment_amount = or_else row.investment_amount (codes "0.0000");
    fund_type = or_else row.fund_type FundType.inflow;
    tenor_days = or_else row.tenor_days 30;
    tenor_category = or_else row.tenor_category TenorCategory.unclassified;
    maturity_date = row.maturity_date;
    investment_reference = row.investment_reference;
    currency = row.currency;
    source_channel = row.source_channel;
    relationship_manager = row.relationship_manager;
    cost_of_funds = row.cost_of_funds;
    import_batch_id = some job.batch_id;
    upload_batch_row_id = some row.id;
    sync_batch_id = none;
    data_source = DataSource.csv_upload;
    import_status = ImportStatus.confirmed;
    record_status = RecordStatus.valid;
    source_record_hash = row.source_record_hash;
    confirmed_by = some job.actor_id;
    confirmed_at = some clock.now;
    created_at = clock.now;
    updated_at = clock.now;
    created_by = some job.actor_id;
    updated_by = some job.actor_id;
  }

  -- `accepts` stands for the other checks of the database: types, foreign keys and CHECKs.
  module _ (accepts : InvestmentRecordRow → Bool) where
    import_row : ℕ → UploadPreviewRow → Progress → Progress
    unfolding insert_outcome
    import_row n row p =
        let reference = truthy row.investment_reference in
        if is_known reference p.existing_refs
        then p
        else insert_outcome reference p (insert_investment accepts (to_record n row) p.table)

    unfoldable pub import_rows : ℕ → List UploadPreviewRow → Progress → Progress
    unfolding import_row
    import_rows n [] p = p
    import_rows n (row ∷ rows) p = import_rows (n + 1) rows (import_row n row p)

    mark_importing : Store → Store
    mark_importing s = record s {
      batches =
          update_where (λ b. text_eq b.id job.batch_id && is_importable b.status)
            (λ b. record b { status = BatchStatus.importing; updated_at = clock.now }) s.batches;
    }

    mark_done : BatchStatus → Store → Store
    mark_done status s = record s {
      batches =
          update_batch job.batch_id
            (λ b. record b {
              status = status;
              updated_at = clock.now;
              completed_at = some clock.now;
            })
            s.batches;
    }

    -- The loop over the rows, from the references that the table has.
    run_rows : List UploadPreviewRow → Store → Progress
    unfolding import_rows existing_references
    run_rows rows s = import_rows 0 rows (record {
      imported_count = 0;
      existing_refs = existing_references rows s.investments;
      table = s.investments;
    })

    finish : List UploadPreviewRow → Action Store Reply
    unfolding mark_done run_rows final_status
    finish [] = do
      modify (mark_done BatchStatus.imported)
      pure (record { status = BatchStatus.imported; batch_id = job.batch_id; imported_count = 0 })
    finish (row ∷ rows) = do
      p ← gets (run_rows (row ∷ rows))
      let status = final_status (length (row ∷ rows)) p
      modify (λ s. record s { investments = p.table })
      modify (mark_done status)
      pure (record { status = status; batch_id = job.batch_id; imported_count = p.imported_count })

    unfoldable pub handle : Action Store Reply
    unfolding mark_importing finish importable_rows
    handle = do
      modify mark_importing
      rows ← gets (λ s. importable_rows job.batch_id s.rows)
      finish rows
