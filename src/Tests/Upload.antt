-- ===== src/Tests/Upload.antt =====
-- The theorems on files, previews and the processing job, at sample data.
use wealth_track.Prelude.{◌≡◌, ◌↔◌, refl, true, List, [], ◌∷◌, map, none, some, All, any, Any}
use wealth_track.Prelude.Text.{codes, trim, text_eq}
use wealth_track.Rows.{UploadPreviewRow, RowStatus, BatchStatus}
use wealth_track.Store.Queries.{find_batch, rows_of_others}
use wealth_track.Csv.{parse_csv, parse_csv_line}
use wealth_track.Csv.RoundTrip.{print_line, parse_csv_line-print_line}
use wealth_track.RowMapper.{to_camel_case_key, to_snake_case_key}
use wealth_track.RowMapper.RoundTrip.{key_round_trips}
use wealth_track.Processing.{handle, content_of}
use wealth_track.Processing.Dates.{normalize_date}
use wealth_track.Processing.Dates.Iso.{IsIsoDate, normalize_date_lem}
use wealth_track.Processing.Preview.{preview}
use wealth_track.Processing.Preview.Complete.{IsComplete, preview-IsComplete}
use wealth_track.Processing.Preview.Errors.{IsAbout, IsAboutBadRow, preview-errors}
use wealth_track.Processing.Preview.References.{shares_reference, preview-duplicate_iff}
use wealth_track.Processing.Outcome.{Outcome, handle-Outcome}
use wealth_track.Processing.Ending.{Processed, handle-Processed}
use wealth_track.Tests.Data.{
  js, file, files, checks, new_id, batch_of, row_of, pending_store, csv_job,
}

accepted : {A : Type 0} (xs : List A) → All (λ x. true ≡ true) xs
accepted [] = tt
accepted (x ∷ xs) = (refl, accepted xs)

handle-Outcome_example :
    let (r, t) = handle js files checks 7 new_id csv_job pending_store in
    Outcome (codes "b1") r t
    × (rows_of_others (codes "b1") t.rows ≡ rows_of_others (codes "b1") pending_store.rows)
unfolding find_batch text_eq
handle-Outcome_example =
    handle-Outcome js files checks 7 new_id csv_job pending_store
      (batch_of (codes "b1") BatchStatus.pending) refl

handle-Processed_example :
    Processed js files checks 7 new_id csv_job pending_store file
      (handle js files checks 7 new_id csv_job pending_store)
unfolding find_batch text_eq content_of
handle-Processed_example =
    handle-Processed js files checks 7 new_id csv_job pending_store file
      (batch_of (codes "b1") BatchStatus.pending) refl refl (accepted _) (accepted _)

preview-IsComplete_example :
    All
      (λ row. row.row_status ≡ RowStatus.valid → IsComplete row)
      (preview js (codes "b1") 7 new_id 0 [] (parse_csv file)).0
preview-IsComplete_example = preview-IsComplete js (codes "b1") 7 new_id 0 [] (parse_csv file)

preview-errors_example :
    let (rows, errors) = preview js (codes "b1") 7 new_id 0 [] (parse_csv file) in
    All (λ e. Any (IsAboutBadRow e) rows) errors
    × All (λ row. row.row_status ≡ RowStatus.invalid → Any (λ e. IsAbout e row) errors) rows
preview-errors_example = preview-errors js (codes "b1") 7 new_id 0 [] (parse_csv file)

parse_csv_line-print_line_example :
    parse_csv_line (print_line (codes "a \"quoted\", cell ") (codes "b" ∷ []))
    ≡ map trim (codes "a \"quoted\", cell " ∷ codes "b" ∷ [])
parse_csv_line-print_line_example =
    parse_csv_line-print_line (codes "a \"quoted\", cell ") (codes "b" ∷ [])

key_round_trips_example :
    (to_snake_case_key (to_camel_case_key (codes "file_url")) ≡ codes "file_url")
    × (to_camel_case_key (to_snake_case_key (codes "fileUrl")) ≡ codes "fileUrl")
key_round_trips_example =
    key_round_trips (codes "file_url") (codes "fileUrl")
      (refl, (refl, (refl, (refl, (refl, (refl, (refl, (refl, tt))))))))
      (refl, (refl, (refl, (refl, (refl, (refl, (refl, tt)))))))

normalize_date_example :
    IsIsoDate (codes "2025-03-07")
    × (normalize_date (some (codes "2025-03-07")) ≡ some (codes "2025-03-07"))
unfolding normalize_date
normalize_date_example = normalize_date_lem (some (codes "3/7/25 10:00")) refl

abbrev first : List UploadPreviewRow → UploadPreviewRow
first [] = row_of [] [] none
first (row ∷ rows) = row

abbrev second : List UploadPreviewRow → UploadPreviewRow
second [] = row_of [] [] none
second (row ∷ rows) = first rows

preview-duplicate_iff_example :
    let rows = (preview js (codes "b1") 7 new_id 0 [] (parse_csv file)).0 in
    ((second rows).row_status ≡ RowStatus.duplicate)
    ↔ (any (shares_reference (second rows)) (first rows ∷ []) ≡ true)
unfolding preview parse_csv trim
preview-duplicate_iff_example =
    preview-duplicate_iff js (codes "b1") 7 new_id (parse_csv file)
      (first (preview js (codes "b1") 7 new_id 0 [] (parse_csv file)).0 ∷ [])
      (second (preview js (codes "b1") 7 new_id 0 [] (parse_csv file)).0) [] refl
