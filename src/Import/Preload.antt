-- ===== src/Import/Preload.antt =====
-- The references that the import job loads before its loop.
use wealth_track.Prelude.{◌≡◌, refl, false, List, [], ◌∷◌, map, none, some, arith}
use wealth_track.Prelude.Text.{Text}
use wealth_track.Rows.{UploadPreviewRow, InvestmentRecordRow}
use wealth_track.Import.{
  References, has, add, add_all, reference_column, select_references, references_of,
  existing_references,
}

-- The names of the columns have become names of fields, so the column is not found.
reference_column-none : (r : Text) → reference_column r ≡ none
unfolding reference_column
reference_column-none r = refl

add_all-has :
    (rs : List Text) (refs : References) (r : Text)
    → has (some r) refs ≡ false
    → has (some r) (add_all (map reference_column rs) refs) ≡ false
unfolding add_all add has
add_all-has [] refs r h = h
add_all-has (x ∷ rs) refs r h =
    add_all-has rs (add (reference_column x) refs) r (ground (arith, reference_column-none x))

-- The references that the job loads from the database recognise no reference at all, whatever the
-- rows and the records are.
pub existing_references_recognise_nothing :
    (rows : List UploadPreviewRow) (table : List InvestmentRecordRow) (r : Text)
    → has (some r) (existing_references rows table) ≡ false
unfolding existing_references has
existing_references_recognise_nothing rows table r =
    add_all-has (select_references (references_of rows) table) [] r refl
