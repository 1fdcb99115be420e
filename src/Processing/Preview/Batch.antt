-- ===== src/Processing/Preview/Batch.antt =====
-- Every preview row belongs to the batch of the job.
use wealth_track.Prelude.{ℕ, ◌+◌, ◌≡◌, true, List, [], ◌∷◌, All, length}
use wealth_track.Prelude.Text.{Text, text_eq, text_eq_refl}
use wealth_track.Csv.{ParsedCsvRecord}
use wealth_track.Rows.{Time}
use wealth_track.Processing.Header.{normalize_values}
use wealth_track.Processing.Enums.{JsNumber}
use wealth_track.Processing.Preview.{add_seen, validation_failures, preview_row, preview}

module _ (js : JsNumber) (batch_id : Text) (now : Time) (new_id : ℕ → Text) where
  pub preview-batch :
      (n : ℕ) (seen : List Text) (parsed : List ParsedCsvRecord)
      → All
          (λ r. text_eq r.upload_batch_id batch_id ≡ true)
          (preview js batch_id now new_id n seen parsed).0
  unfolding preview
  preview-batch n seen [] = tt
  preview-batch n seen (p ∷ rest) = (
    text_eq_refl batch_id,
    preview-batch (n + 1 + length (validation_failures js (normalize_values p.values)))
        (add_seen (preview_row js batch_id now new_id n seen p).investment_reference seen) rest,
  )
