-- ===== src/Processing/Preview.antt =====
-- The loop of `handle` over the parsed rows: one preview row for each, and its validation errors.
pub mod Complete
pub mod References
pub mod Errors
pub mod Batch
use wealth_track.Prelude.{
  ℕ, ◌+◌, Bool, true, false, not, ◌&&◌, String, List, [], ◌∷◌, ◌++◌, Option, none, some, or_else,
  length, is_some, ◌==◌, if◌then◌else◌,
}
use wealth_track.Prelude.Text.{Text, codes, is_empty, includes}
use wealth_track.Csv.{Values, ParsedCsvRecord, value_of}
use wealth_track.Rows.{
  Time, UploadPreviewRow, UploadValidationErrorRow, RowStatus, valid, invalid, duplicate,
  TenorCategory,
}
use wealth_track.Processing.Header.{normalize_values}
use wealth_track.Processing.Dates.{normalize_date}
use wealth_track.Processing.Enums.{
  JsNumber, classify_tenor, normalize_customer_type, normalize_fund_type, normalize_money,
  parse_positive_integer,
}

-- `value || null`: the empty string is falsy too.
unfoldable pub or_null : Option Text → Option Text
or_null none = none
or_null (some []) = none
or_null (some (c ∷ s)) = some (c ∷ s)

-- `[fieldName, errorCode, originalValue]`
pub record Failure : Type 0 where
  pub field_name : Text
  pub error_code : Text
  pub original_value : Option Text

-- `if (!value) validationFailures.push([fieldName, 'required', value || null])`
required : Text → Option Text → List Failure
required field_name value =
    if is_some (or_null value)
    then []
    else record { field_name = field_name; error_code = codes "required"; original_value = none }
      ∷ []

-- `if (value && bad) validationFailures.push([fieldName, errorCode, value])`
refused : Text → Text → Option Text → Bool → List Failure
refused field_name error_code value bad =
    if is_some (or_null value) && bad
    then record { field_name = field_name; error_code = error_code; original_value = value } ∷ []
    else []

-- `tenorDays ? this.classifyTenor(tenorDays) : null`
category : Option ℕ → Option TenorCategory
category none = none
category (some days) = if days == 0 then none else some (classify_tenor days)

abbrev status_of : List Failure → RowStatus
status_of [] = valid
status_of (f ∷ fs) = invalid

-- `investmentReference && seenReferences.has(investmentReference)`
abbrev is_repeated : Option Text → List Text → Bool
is_repeated none seen = false
is_repeated (some reference) seen = includes seen reference

abbrev add_seen : Option Text → List Text → List Text
add_seen none seen = seen
add_seen (some reference) seen = reference ∷ seen

module _ (js : JsNumber) where
  unfoldable pub validation_failures : Values → List Failure
  unfolding required refused
  validation_failures values =
      let value = λ (key : String). value_of (codes key) values in
      required (codes "customer_id") (value "customer_id")
      ++ (required (codes "mobilisation_date") (value "mobilisation_date")
          ++ (required (codes "investment_amount") (value "investment_amount")
              ++ (required (codes "fund_type") (value "fund_type")
                  ++ (required (codes "tenor_days") (value "tenor_days")
                      ++ (refused (codes "customer_type") (codes "invalid_enum")
                            (value "customer_type")
                            (not (is_some (normalize_customer_type (value "customer_type"))))
                          ++ (refused (codes "fund_type") (codes "invalid_enum") (value "fund_type")
                                (not (
                                  is_some (
                                    normalize_fund_type js (value "fund_type") (value "inflow")
                                      (value "rollover"))))
                              ++ (refused (codes "tenor_days") (codes "invalid_number")
                                    (value "tenor_days")
                                    (not (is_some (parse_positive_integer js (value "tenor_days"))))
                                  ++ (refused (codes "investment_amount") (codes "invalid_number")
                                        (value "investment_amount")
                                        (not (
                                          is_some (normalize_money js (value "investment_amount"))))
                                      ++ (refused (codes "mobilisation_date") (codes "invalid_date")
                                            (value "mobilisation_date")
                                            (not (
                                              is_some (normalize_date (value "mobilisation_date"))))
                                          ++ refused (codes "maturity_date") (codes "invalid_date")
                                              (value "maturity_date")
                                              (not (
                                                is_some (
                                                  normalize_date (value "maturity_date")))))))))))))

  -- The job's constants: the batch, the clock, and the identifiers that `createId` gives in turn.
  module _ (batch_id : Text) (now : Time) (new_id : ℕ → Text) where
    preview_row : ℕ → List Text → ParsedCsvRecord → UploadPreviewRow
    preview_row n seen parsed =
        let values = normalize_values parsed.values in
        let value = λ (key : String). value_of (codes key) values in
        let reference = or_null (value "investment_reference") in
        let tenor_days = parse_positive_integer js (value "tenor_days") in
        record {
          id = new_id n;
          upload_batch_id = batch_id;
          csv_row_number = parsed.row_number;
          customer_id = or_null (value "customer_id");
          customer_name = or_null (value "customer_name");
          customer_type = normalize_customer_type (value "customer_type");
          mobilisation_date = normalize_date (value "mobilisation_date");
          investment_amount = normalize_money js (value "investment_amount");
          fund_type =
              normalize_fund_type js (value "fund_type") (value "inflow") (value "rollover");
          tenor_days = tenor_days;
          tenor_category = category tenor_days;
          maturity_date = normalize_date (value "maturity_date");
          investment_reference = reference;
          currency = or_else (or_null (value "currency")) (codes "NGN");
          source_channel = or_null (value "source_channel");
          relationship_manager = or_null (value "relationship_manager");
          cost_of_funds = normalize_money js (value "cost_of_funds");
          source_record_hash = reference;
          row_status =
              if is_repeated reference seen
              then duplicate
              else status_of (validation_failures values);
          raw_payload_json = some parsed.values;
          normalized_payload_json = some values;
          created_at = now;
          updated_at = now;
        }

    error_rows : ℕ → UploadPreviewRow → List Failure → List UploadValidationErrorRow
    error_rows n row [] = []
    error_rows n row (f ∷ fs) =
        record {
          id = new_id n;
          upload_batch_id = batch_id;
          upload_batch_row_id = some row.id;
          csv_row_number = row.csv_row_number;
          field_name = f.field_name;
          error_code = f.error_code;
          error_message =
              f.field_name ++ (codes " failed " ++ (f.error_code ++ codes " validation"));
          original_value = f.original_value;
          created_at = now;
        }
        ∷ error_rows (n + 1) row fs

    -- `seen` is `seenReferences`, and `n` counts the identifiers that are used.
    unfoldable pub preview :
        ℕ → List Text → List ParsedCsvRecord → List UploadPreviewRow × List UploadValidationErrorRow
    unfolding preview_row error_rows category
    preview n seen [] = ([], [])
    preview n seen (parsed ∷ rest) =
        let row = preview_row n seen parsed in
        let failures = validation_failures (normalize_values parsed.values) in
        let later =
          preview (n + 1 + length failures) (add_seen row.investment_reference seen) rest in
        (row ∷ later.0, error_rows (n + 1) row failures ++ later.1)
