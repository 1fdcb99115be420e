-- ===== src/Sheets/Rows.antt =====
-- `processTab`, a row at a time.
use wealth_track.Prelude.{
  ℕ, suc, ◌+◌, Bool, true, false, not, ◌&&◌, ◌==◌, List, [], ◌∷◌, ◌++◌, Option, none, some, or_else,
  find, any, all, if◌then◌else◌,
}
use mathlib.Core.Option
use wealth_track.Prelude.Text.{Text, codes, text_eq}
use wealth_track.Prelude.Action.{Action, ok, internal, pure, gets, modify, require, ◌>>=◌, ◌>>◌}
use wealth_track.Csv.{value_of}
use wealth_track.RowMapper.{to_camel_case_row}
use wealth_track.Rows.{
  Time, GoogleSheetTabRow, GoogleSheetRowChecksumRow, InvestmentRecordRow, SyncBatchErrorRow,
  CustomerType, FundType, DataSource, ImportStatus, RecordStatus, Cell, Payload,
}
use wealth_track.Processing.Enums.{classify_tenor}
use wealth_track.Store.{Store}
use wealth_track.Store.Queries.{update_where, insert_investment, collides}
use wealth_track.Sheets.Cells.{is_blank, is_text, to_text, get, optional, missing_fields, map_row}

-- What a synchronisation draws on: the clock, the identifiers of `createId` by the row they are drawn
-- for, the SHA-256 of a row's JSON, `String(n)`, `Number(cell)` where a column of whole numbers takes
-- it, and the checks of the database other than its unique keys.
pub record Env : Type 0 where
  pub now : Time
  pub new_id : Text → ℕ → ℕ → Text
  pub checksum : List Cell → Text
  pub decimal : ℕ → Text
  pub number : Cell → Option ℕ
  pub accepts : InvestmentRecordRow → Bool

pub record Counts : Type 0 where
  pub valid : ℕ
  pub invalid : ℕ
  pub skipped : ℕ

abbrev pub no_counts : Counts
no_counts = record { valid = 0; invalid = 0; skipped = 0 }

abbrev pub one_valid : Counts → Counts
one_valid c = record c { valid = c.valid + 1 }

abbrev pub one_invalid : Counts → Counts
one_invalid c = record c { invalid = c.invalid + 1 }

abbrev pub one_skipped : Counts → Counts
one_skipped c = record c { skipped = c.skipped + 1 }

-- `names.join(', ')`
unfoldable pub join_comma : List Text → Text
join_comma [] = []
join_comma (w ∷ []) = w
join_comma (w ∷ v ∷ ws) = w ++ codes ", " ++ join_comma (v ∷ ws)

-- `names.length > 0`
abbrev pub has_some : List Text → Bool
has_some [] = false
has_some (w ∷ ws) = true

-- `existing?.row_checksum`, of a row whose columns `selectOne` has renamed.
unfoldable pub stored_checksum : Option GoogleSheetRowChecksumRow → Option Text
unfolding value_of to_camel_case_row
stored_checksum none = none
stored_checksum (some e) = value_of (codes "row_checksum") (
    to_camel_case_row (
      (codes "id", e.id)
      ∷ (codes "row_checksum", e.row_checksum)
      ∷ (codes "investment_record_id", or_else e.investment_record_id [])
      ∷ []))

-- `existing?.row_checksum === rowChecksum`
abbrev pub is_unchanged : Option GoogleSheetRowChecksumRow → Text → Bool
is_unchanged existing sum = elim (stored_checksum existing) [
  | none ↦ false
  | some stored ↦ text_eq stored sum
]

-- `UPDATE investment_records SET … WHERE id = ?`: refused like an INSERT, for the changed row.
unfoldable pub update_investment :
    (InvestmentRecordRow → Bool)
    → Text
    → (InvestmentRecordRow → InvestmentRecordRow)
    → List InvestmentRecordRow
    → Option (List InvestmentRecordRow)
unfolding collides
update_investment accepts id f table = elim (find (λ r. text_eq r.id id) table) [
  | none ↦ some table
  | some r ↦
      if accepts (f r) && not (any (λ s. not (text_eq s.id id) && collides (f r) s) table)
      then some (update_where (λ s. text_eq s.id id) f table)
      else none
]

module _ (env : Env) (tab : GoogleSheetTabRow) (batch_id actor_id : Text) where
  -- The row of the table of checksums for a row of the sheet.
  abbrev pub is_checksum_of : ℕ → GoogleSheetRowChecksumRow → Bool
  is_checksum_of index c = text_eq c.sheet_tab_id tab.id && c.row_index == index

  abbrev pub error_row : ℕ → Payload → SyncBatchErrorRow
  error_row index mapped = record {
    id = env.new_id tab.id index 0;
    sync_batch_id = batch_id;
    source_record_identifier = some (tab.sheet_title ++ codes ":row:" ++ env.decimal index);
    error_code = codes "validation_failed";
    error_message = codes "Missing required fields: " ++ join_comma (missing_fields mapped);
    raw_payload_json = some mapped;
    created_at = env.now;
  }

  abbrev pub new_record : ℕ → Payload → Text → ℕ → InvestmentRecordRow
  new_record index mapped sum tenor_days = record {
    id = env.new_id tab.id index 0;
    customer_id = to_text (get (codes "customer_id") mapped);
    customer_name = to_text (get (codes "customer_name") mapped);
    customer_type =
        if is_text (get (codes "customer_type") mapped) (codes "new")
        then CustomerType.new
        else CustomerType.returning;
    mobilisation_date = to_text (get (codes "mobilisation_date") mapped);
    investment_amount = to_text (get (codes "investment_amount") mapped);
    fund_type =
        if is_text (get (codes "fund_type") mapped) (codes "rollover")
        then FundType.rollover
        else FundType.inflow;
    tenor_days = tenor_days;
    tenor_category = classify_tenor tenor_days;
    maturity_date = optional (codes "maturity_date") mapped;
    investment_reference = optional (codes "investment_reference") mapped;
    currency = or_else (optional (codes "currency") mapped) (codes "NGN");
    source_channel = optional (codes "source_channel") mapped;
    relationship_manager = optional (codes "relationship_manager") mapped;
    cost_of_funds = optional (codes "cost_of_funds") mapped;
    import_batch_id = none;
    upload_batch_row_id = none;
    sync_batch_id = some batch_id;
    data_source = DataSource.google_sheets;
    import_status = ImportStatus.confirmed;
    record_status = RecordStatus.valid;
    source_record_hash = some sum;
    confirmed_by = some actor_id;
    confirmed_at = some env.now;
    created_at = env.now;
    updated_at = env.now;
    created_by = some actor_id;
    updated_by = some actor_id;
  }

  -- The columns that the UPDATE of an existing record sets.
  abbrev pub updated_record : Payload → Text → ℕ → InvestmentRecordRow → InvestmentRecordRow
  updated_record mapped sum tenor_days r = record r {
    customer_name = to_text (get (codes "customer_name") mapped);
    investment_amount = to_text (get (codes "investment_amount") mapped);
    tenor_days = tenor_days;
    maturity_date = optional (codes "maturity_date") mapped;
    source_record_hash = some sum;
    sync_batch_id = some batch_id;
    data_source = DataSource.google_sheets;
    updated_at = env.now;
    updated_by = some actor_id;
  }

  -- `SELECT id FROM investment_records WHERE investment_reference = ?`, if there is a reference.
  abbrev pub find_by_reference : Option Text → List InvestmentRecordRow → Option InvestmentRecordRow
  find_by_reference none table = none
  find_by_reference (some reference) table =
      find (λ r. elim r.investment_reference [ none ↦ false | some t ↦ text_eq t reference ]) table

  -- The table with the row inserted, or with the record that was found updated, and the identifier.
  unfoldable pub write_found :
      Option InvestmentRecordRow
      → ℕ
      → Payload
      → Text
      → ℕ
      → List InvestmentRecordRow
      → Option (Text × List InvestmentRecordRow)
  unfolding update_investment insert_investment
  write_found none index mapped sum tenor_days table =
      Option.map (λ t. (env.new_id tab.id index 0, t))
        (insert_investment env.accepts (new_record index mapped sum tenor_days) table)
  write_found (some r) index mapped sum tenor_days table =
      Option.map (λ t. (r.id, t))
        (update_investment env.accepts r.id (updated_record mapped sum tenor_days) table)

  unfoldable pub write_record :
      ℕ → Payload → Text → ℕ → List InvestmentRecordRow → Option (Text × List InvestmentRecordRow)
  unfolding write_found
  write_record index mapped sum tenor_days table =
      write_found (find_by_reference (optional (codes "investment_reference") mapped) table) index
        mapped sum tenor_days table

  abbrev new_checksum : ℕ → Text → Text → GoogleSheetRowChecksumRow
  new_checksum index sum record_id = record {
    id = env.new_id tab.id index 1;
    sheet_tab_id = tab.id;
    row_index = index;
    row_checksum = sum;
    investment_record_id = some record_id;
    synced_at = env.now;
  }

  unfoldable pub write_checksum :
      ℕ
      → Text
      → Text
      → Option GoogleSheetRowChecksumRow
      → List GoogleSheetRowChecksumRow
      → List GoogleSheetRowChecksumRow
  write_checksum index sum record_id none table = table ++ new_checksum index sum record_id ∷ []
  write_checksum index sum record_id (some e) table =
      update_where (λ c. text_eq c.id e.id)
        (λ c. record c {
          row_checksum = sum;
          investment_record_id = some record_id;
          synced_at = env.now;
        })
        table

  -- A row with all required fields.
  unfoldable pub import_row :
      ℕ → Payload → Text → Option GoogleSheetRowChecksumRow → Action Store (Unit {0})
  unfolding write_record write_checksum
  import_row index mapped sum existing = do
    tenor_days ←
        require (env.number (get (codes "tenor_days") mapped)) (internal "tenor_days refused")
    written ← gets (λ s. write_record index mapped sum tenor_days s.investments)
    (record_id, table) ← require written (internal "statement refused")
    modify (λ s. record s {
      investments = table;
      checksums = write_checksum index sum record_id existing s.checksums;
    })

  -- A row that has changed, with its cells under their fields.
  unfoldable pub record_row :
      ℕ → Payload → Text → Option GoogleSheetRowChecksumRow → Counts → Action Store Counts
  unfolding import_row join_comma
  record_row index mapped sum existing counts s =
      if has_some (missing_fields mapped)
      then (
        ok (one_invalid counts),
        record s { sync_errors = s.sync_errors ++ error_row index mapped ∷ [] },
      )
      else (import_row index mapped sum existing >> pure (one_valid counts)) s

  -- One data row; `index` is its number from 1 on.
  unfoldable pub process_row : List Text → ℕ → List Cell → Counts → Action Store Counts
  unfolding record_row
  process_row fields index row counts s =
      let existing = find (is_checksum_of index) s.checksums in
      if all is_blank row
      then (ok (one_skipped counts), s)
      else if is_unchanged existing (env.checksum row)
      then (ok (one_skipped counts), s)
      else record_row index (map_row fields row []) (env.checksum row) existing counts s

  unfoldable pub process_rows : List Text → ℕ → List (List Cell) → Counts → Action Store Counts
  unfolding process_row
  process_rows fields index [] counts = pure counts
  process_rows fields index (row ∷ rows) counts =
      process_row fields index row counts >>= process_rows fields (suc index) rows
