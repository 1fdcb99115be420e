-- ===== src/Processing/Preview/Complete.antt =====
-- A preview row that is marked valid holds every field that an import needs.
use wealth_track.Prelude.{
  ℕ, ◌+◌, ◌≡◌, refl, true, not, List, [], ◌∷◌, ◌++◌, Option, arith, All, is_some, length,
}
use wealth_track.Prelude.Text.{Text, codes}
use wealth_track.Csv.{Values, ParsedCsvRecord, value_of}
use wealth_track.Rows.{Time, UploadPreviewRow, valid}
use wealth_track.Processing.Header.{normalize_values}
use wealth_track.Processing.Enums.{
  JsNumber, parse_positive_integer, normalize_money, normalize_fund_type,
}
use wealth_track.Processing.Dates.{normalize_date}
use wealth_track.Processing.Preview.{
  or_null, Failure, required, refused, status_of, add_seen, validation_failures, preview_row,
  preview,
}

-- What the import reads of a row without a default of its own being needed.
pub record IsComplete (row : UploadPreviewRow) : Type 0 where
  pub customer : is_some row.customer_id ≡ true
  pub mobilised : is_some row.mobilisation_date ≡ true
  pub amount : is_some row.investment_amount ≡ true
  pub fund : is_some row.fund_type ≡ true
  pub tenor : is_some row.tenor_days ≡ true

append-eq-nil : {A : Type 0} (xs ys : List A) → xs ++ ys ≡ [] → (xs ≡ []) × (ys ≡ [])
append-eq-nil [] ys h = (refl, h)
append-eq-nil (x ∷ xs) ys h = cc

required-nil : (key : Text) (v : Option Text) → required key v ≡ [] → is_some (or_null v) ≡ true
unfolding required
required-nil key v h = ground arith

refused-nil :
    (key code : Text) (v : Option Text) {A : Type 0} (o : Option A)
    → refused key code v (not (is_some o)) ≡ []
    → is_some (or_null v) ≡ true
    → is_some o ≡ true
unfolding refused
refused-nil key code v o h k = ground arith

module _ (js : JsNumber) where
  -- What is known of the cells of a row that no check refused.
  record IsClean (values : Values) : Type 0 where
    customer : is_some (or_null (value_of (codes "customer_id") values)) ≡ true
    mobilised : is_some (normalize_date (value_of (codes "mobilisation_date") values)) ≡ true
    amount : is_some (normalize_money js (value_of (codes "investment_amount") values)) ≡ true
    fund :
        is_some (
          normalize_fund_type js
            (value_of (codes "fund_type") values)
            (value_of (codes "inflow") values)
            (value_of (codes "rollover") values))
        ≡ true
    tenor : is_some (parse_positive_integer js (value_of (codes "tenor_days") values)) ≡ true

  IsClean-of_no_failures : (values : Values) → validation_failures js values ≡ [] → IsClean values
  unfolding validation_failures
  IsClean-of_no_failures values h =
      let (customer, h₁) = append-eq-nil _ _ h in
      let (date, h₂) = append-eq-nil _ _ h₁ in
      let (amount, h₃) = append-eq-nil _ _ h₂ in
      let (fund, h₄) = append-eq-nil _ _ h₃ in
      let (tenor, h₅) = append-eq-nil _ _ h₄ in
      let (type, h₆) = append-eq-nil _ _ h₅ in
      let (bad_fund, h₇) = append-eq-nil _ _ h₆ in
      let (bad_tenor, h₈) = append-eq-nil _ _ h₇ in
      let (bad_amount, h₉) = append-eq-nil _ _ h₈ in
      let (bad_date, _) = append-eq-nil _ _ h₉ in
      record {
        customer = required-nil _ _ customer;
        mobilised = refused-nil _ _ _ _ bad_date (required-nil _ _ date);
        amount = refused-nil _ _ _ _ bad_amount (required-nil _ _ amount);
        fund = refused-nil _ _ _ _ bad_fund (required-nil _ _ fund);
        tenor = refused-nil _ _ _ _ bad_tenor (required-nil _ _ tenor);
      }

  status_of-valid : (fs : List Failure) → status_of fs ≡ valid → fs ≡ []
  status_of-valid [] h = refl
  status_of-valid (f ∷ fs) h = cc

  module _ (batch_id : Text) (now : Time) (new_id : ℕ → Text) where
    preview_row-IsComplete :
        (n : ℕ) (seen : List Text) (parsed : ParsedCsvRecord)
        → (preview_row js batch_id now new_id n seen parsed).row_status ≡ valid
        → IsComplete (preview_row js batch_id now new_id n seen parsed)
    unfolding preview_row
    preview_row-IsComplete n seen parsed h =
        let clean = IsClean-of_no_failures (normalize_values parsed.values) (
          status_of-valid (validation_failures js (normalize_values parsed.values))
            (ground arith)) in
        record {
          customer = clean.customer;
          mobilised = clean.mobilised;
          amount = clean.amount;
          fund = clean.fund;
          tenor = clean.tenor;
        }

    -- Whatever the file holds, every preview row that is marked valid has a customer, a mobilisation
    -- date, an amount, a fund type and a number of days.
    pub preview-IsComplete :
        (n : ℕ) (seen : List Text) (parsed : List ParsedCsvRecord)
        → All
            (λ row. row.row_status ≡ valid → IsComplete row)
            (preview js batch_id now new_id n seen parsed).0
    unfolding preview
    preview-IsComplete n seen [] = tt
    preview-IsComplete n seen (p ∷ rest) = (
      preview_row-IsComplete n seen p,
      preview-IsComplete (n + 1 + length (validation_failures js (normalize_values p.values)))
          (add_seen (preview_row js batch_id now new_id n seen p).investment_reference seen) rest,
    )
