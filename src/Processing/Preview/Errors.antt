-- ===== src/Processing/Preview/Errors.antt =====
-- The validation errors of a file and the rows that they are about.
use wealth_track.Prelude.{
  ℕ, ◌+◌, ◌≡◌, refl, ◌≢◌, true, false, List, [], ◌∷◌, some, All, All-append, All-map, Any,
  Any-append_left, Any-append_right, length, if◌then◌else◌, Bool,
}
use wealth_track.Prelude.Text.{Text}
use wealth_track.Csv.{ParsedCsvRecord}
use wealth_track.Rows.{Time, UploadPreviewRow, UploadValidationErrorRow, valid, invalid, duplicate}
use wealth_track.Processing.Header.{normalize_values}
use wealth_track.Processing.Enums.{JsNumber}
use wealth_track.Processing.Preview.{
  Failure, status_of, is_repeated, add_seen, validation_failures, preview_row, error_rows, preview,
}

-- The error names the row, by its identifier and by its line in the file.
abbrev pub IsAbout : UploadValidationErrorRow → UploadPreviewRow → Type 0
IsAbout e row = (e.upload_batch_row_id ≡ some row.id) × (e.csv_row_number ≡ row.csv_row_number)

abbrev pub IsAboutBadRow : UploadValidationErrorRow → UploadPreviewRow → Type 0
IsAboutBadRow e row = IsAbout e row × (row.row_status ≢ valid)

status_with_failure :
    (b : Bool) (f : Failure) (fs : List Failure)
    → (if b then duplicate else status_of (f ∷ fs)) ≢ valid
status_with_failure true f fs = cc
status_with_failure false f fs = cc

status_without_failure : (b : Bool) → (if b then duplicate else status_of []) ≢ invalid
status_without_failure true = cc
status_without_failure false = cc

module _ (js : JsNumber) (batch_id : Text) (now : Time) (new_id : ℕ → Text) where
  error_rows-IsAbout :
      (n : ℕ) (row : UploadPreviewRow) (fs : List Failure)
      → All (λ e. IsAbout e row) (error_rows js batch_id now new_id n row fs)
  unfolding error_rows
  error_rows-IsAbout n row [] = tt
  error_rows-IsAbout n row (f ∷ fs) = ((refl, refl), error_rows-IsAbout (n + 1) row fs)

  module _ (n : ℕ) (seen : List Text) (p : ParsedCsvRecord) where
    row-bad :
        (f : Failure) (fs : List Failure)
        → validation_failures js (normalize_values p.values) ≡ f ∷ fs
        → (preview_row js batch_id now new_id n seen p).row_status ≢ valid
    unfolding preview_row
    row-bad f fs h =
        let row = preview_row js batch_id now new_id n seen p in
        rw h (status_with_failure (is_repeated row.investment_reference seen) f fs)

    errors-bad :
        (m : ℕ) (fs : List Failure)
        → validation_failures js (normalize_values p.values) ≡ fs
        → All
            (λ e. IsAboutBadRow e (preview_row js batch_id now new_id n seen p))
            (error_rows js batch_id now new_id m (preview_row js batch_id now new_id n seen p) fs)
    errors-bad m [] h = unfold error_rows in tt
    errors-bad m (f ∷ fs) h =
        All-map (λ e about. (about, row-bad f fs h)) _
          (error_rows-IsAbout m (preview_row js batch_id now new_id n seen p) (f ∷ fs))

    errors-there :
        (m : ℕ) (fs : List Failure)
        → validation_failures js (normalize_values p.values) ≡ fs
        → (preview_row js batch_id now new_id n seen p).row_status ≡ invalid
        → Any
            (λ e. IsAbout e (preview_row js batch_id now new_id n seen p))
            (error_rows js batch_id now new_id m (preview_row js batch_id now new_id n seen p) fs)
    unfolding error_rows preview_row
    errors-there m [] h bad =
        let row = preview_row js batch_id now new_id n seen p in
        absurd (status_without_failure (is_repeated row.investment_reference seen) (rw h at bad))
    errors-there m (f ∷ fs) h bad = Any.here (refl, refl)

  abbrev next : ℕ → ParsedCsvRecord → ℕ
  next n p = n + 1 + length (validation_failures js (normalize_values p.values))

  -- Every validation error of a file is about a row of the file that is not marked valid, and every
  -- row that is marked invalid has an error about it.
  pub preview-errors :
      (n : ℕ) (seen : List Text) (parsed : List ParsedCsvRecord)
      → All
          (λ e. Any (IsAboutBadRow e) (preview js batch_id now new_id n seen parsed).0)
          (preview js batch_id now new_id n seen parsed).1
        × All
            (λ row.
              row.row_status ≡ invalid
              → Any (λ e. IsAbout e row) (preview js batch_id now new_id n seen parsed).1)
            (preview js batch_id now new_id n seen parsed).0
  unfolding preview
  preview-errors n seen [] = (tt, tt)
  preview-errors n seen (p ∷ rest) =
      let row = preview_row js batch_id now new_id n seen p in
      let fs = validation_failures js (normalize_values p.values) in
      let ih =
        preview-errors (n + 1 + length (validation_failures js (normalize_values p.values)))
          (add_seen (preview_row js batch_id now new_id n seen p).investment_reference seen) rest in
      let own = error_rows js batch_id now new_id (n + 1) row fs in
      (
        All-append _ own _ (All-map (λ e h. Any.here h) own (errors-bad n seen p (n + 1) fs refl))
            (All-map (λ e h. Any.there h) _ ih.0),
        (
          (λ bad. Any-append_left _ (errors-there n seen p (n + 1) fs refl bad)),
          All-map (λ r h bad. Any-append_right own (h bad)) _ ih.1,
        ),
      )
