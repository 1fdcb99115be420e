-- ===== src/Import/Status.antt =====
-- The status that an import gives its batch.
use wealth_track.Prelude.{
  ℕ, ◌+◌, ◌*◌, ◌≤◌, ◌≡◌, refl, Bool, true, false, List, [], ◌∷◌, Option, none, some, arith, length,
  All, is_some,
}
use wealth_track.Prelude.Text.{Text}
use wealth_track.Prelude.Action.{ok}
use wealth_track.Rows.{UploadPreviewRow, InvestmentRecordRow, ConfirmImportJob, BatchStatus}
use wealth_track.Store.{Store}
use wealth_track.Import.{
  Clock, Progress, Reply, References, truthy, add, track, is_known, insert_outcome, import_row,
  import_rows, finish, handle, importable_rows, run_rows, existing_references, final_status,
}

-- The row carries a reference.
abbrev pub HasReference : UploadPreviewRow → Type 0
HasReference row = is_some (truthy row.investment_reference) ≡ true

-- Adding a reference that is not there makes the set one larger.
length-track :
    (o : Option Text) (refs : References)
    → is_some o ≡ true
    → is_known o refs ≡ false
    → length (track o refs) ≡ length refs + 1
unfolding add
length-track none refs h k = cc
length-track (some r) refs h k = rw k (omega arith)

module _ (clock : Clock) (new_id : ℕ → Text) (job : ConfirmImportJob)
    (accepts : InvestmentRecordRow → Bool) where
  -- Each record that is inserted is counted in the set of references too.
  import_row-counts :
      (n : ℕ) (row : UploadPreviewRow) (p : Progress)
      → HasReference row
      → length (import_row clock new_id job accepts n row p).existing_refs + p.imported_count
        ≡ length p.existing_refs + (import_row clock new_id job accepts n row p).imported_count
  unfolding import_row insert_outcome
  import_row-counts n row p h =
      ground (arith, length-track (truthy row.investment_reference) p.existing_refs h)

  import_rows-counts :
      (n : ℕ) (rows : List UploadPreviewRow) (p : Progress)
      → All HasReference rows
      → length (import_rows clock new_id job accepts n rows p).existing_refs + p.imported_count
        ≡ length p.existing_refs + (import_rows clock new_id job accepts n rows p).imported_count
  unfolding import_rows
  import_rows-counts n [] p h = refl
  import_rows-counts n (row ∷ rows) p h = omega (
    arith,
    import_row-counts n row p h.0,
    import_rows-counts (n + 1) rows (import_row clock new_id job accepts n row p) h.1,
  )

  final_status-imported :
      (expected : ℕ) (p : Progress)
      → expected ≤ p.imported_count + length p.existing_refs
      → final_status expected p ≡ BatchStatus.imported
  unfolding final_status
  final_status-imported expected p h = ground arith

  finish-half :
      (rows : List UploadPreviewRow) (s : Store) (reply : Reply)
      → All HasReference rows
      → (finish clock new_id job accepts rows s).0 ≡ ok reply
      → length rows ≤ 2 * reply.imported_count
      → reply.status ≡ BatchStatus.imported
  unfolding finish
  finish-half [] s reply h e le = ground arith
  finish-half (row ∷ rows) s reply h e le = ground (
    arith,
    import_rows-counts 0 (row ∷ rows)
        (record {
          imported_count = 0;
          existing_refs = existing_references (row ∷ rows) s.investments;
          table = s.investments;
        })
        h,
    final_status-imported (length (row ∷ rows)) (run_rows clock new_id job accepts (row ∷ rows) s),
  )

  -- When every valid row carries a reference and at least half of them are inserted, the batch is
  -- reported as `imported`, though the others may have been refused.
  pub handle_half_imported :
      (s : Store) (reply : Reply)
      → All HasReference (importable_rows job.batch_id s.rows)
      → (handle clock new_id job accepts s).0 ≡ ok reply
      → length (importable_rows job.batch_id s.rows) ≤ 2 * reply.imported_count
      → reply.status ≡ BatchStatus.imported
  unfolding handle
  handle_half_imported s reply h e le =
      finish-half (importable_rows job.batch_id s.rows) _ reply h e le
