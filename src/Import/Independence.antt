-- ===== src/Import/Independence.antt =====
-- What an import inserts does not depend on the batch that it is for.
use wealth_track.Prelude.{ℕ, ◌≡◌, ap, ◌∙◌, List, [], ◌∷◌, Bool}
use wealth_track.Prelude.Text.{Text}
use wealth_track.Rows.{UploadPreviewRow, InvestmentRecordRow, ConfirmImportJob}
use wealth_track.Store.{Store}
use wealth_track.Import.{
  Clock, existing_references, importable_rows, import_rows, run_rows, mark_importing, finish,
  handle,
}

module _ (clock : Clock) (new_id : ℕ → Text) (job : ConfirmImportJob)
    (accepts : InvestmentRecordRow → Bool) where
  finish-investments :
      (rows : List UploadPreviewRow) (s t : Store)
      → s.investments ≡ t.investments
      → (finish clock new_id job accepts rows s).1.investments
        ≡ (finish clock new_id job accepts rows t).1.investments
  unfolding finish run_rows
  finish-investments [] s t e = e
  finish-investments (row ∷ rows) s t e =
      ap
        (λ table.
          (import_rows clock new_id job accepts 0 (row ∷ rows) (record {
            imported_count = 0;
            existing_refs = existing_references (row ∷ rows) table;
            table = table;
          })).table)
        e

  -- An import inserts the same records in two states with the same preview rows and the same
  -- investment records.
  pub handle-investments :
      (s t : Store)
      → s.rows ≡ t.rows
      → s.investments ≡ t.investments
      → (handle clock new_id job accepts s).1.investments
        ≡ (handle clock new_id job accepts t).1.investments
  unfolding handle mark_importing
  handle-investments s t r e =
      finish-investments (importable_rows job.batch_id s.rows)
        (mark_importing clock new_id job accepts s) (mark_importing clock new_id job accepts t) e
      ∙ ap
          (λ rows.
            (finish clock new_id job accepts (importable_rows job.batch_id rows)
              (mark_importing clock new_id job accepts t)).1.investments)
          r
