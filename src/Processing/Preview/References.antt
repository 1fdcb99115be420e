-- ===== src/Processing/Preview/References.antt =====
-- Which rows of a file are marked as duplicates.
use wealth_track.Prelude.{
  ℕ, ◌+◌, ◌≡◌, refl, ◌↔◌, Bool, true, false, ◌||◌, List, [], ◌∷◌, ◌++◌, Option, none, some, arith,
  any, length, if◌then◌else◌,
}
use mathlib.Core.Path.{subst}
use wealth_track.Prelude.Text.{Text}
use wealth_track.Csv.{ParsedCsvRecord}
use wealth_track.Rows.{Time, UploadPreviewRow, duplicate}
use wealth_track.Store.Queries.{sql_eq}
use wealth_track.Processing.Header.{normalize_values}
use wealth_track.Processing.Enums.{JsNumber}
use wealth_track.Processing.Preview.{
  Failure, status_of, is_repeated, add_seen, validation_failures, preview_row, preview,
}

-- Two rows carry the same reference.
abbrev pub shares_reference : UploadPreviewRow → UploadPreviewRow → Bool
shares_reference row earlier = sql_eq earlier.investment_reference row.investment_reference

marked :
    (b : Bool) (fs : List Failure)
    → ((if b then duplicate else status_of fs) ≡ duplicate) ↔ (b ≡ true)
marked true fs = (λ h. refl, λ h. refl)
marked false [] = (λ h. cc, λ h. cc)
marked false (f ∷ fs) = (λ h. cc, λ h. cc)

is_repeated-add_seen :
    (own earlier : Option Text) (seen : List Text)
    → is_repeated own (add_seen earlier seen) ≡ (sql_eq earlier own || is_repeated own seen)
is_repeated-add_seen none none seen = refl
is_repeated-add_seen none (some e) seen = refl
is_repeated-add_seen (some r) none seen = refl
is_repeated-add_seen (some r) (some e) seen = refl

or_false : (b : Bool) → (b || false) ≡ b
or_false b = ground arith

is_repeated-nil : (o : Option Text) → is_repeated o [] ≡ false
is_repeated-nil none = refl
is_repeated-nil (some r) = refl

or_swap : (a b c : Bool) → ((a || b) || c) ≡ (b || (a || c))
or_swap a b c = ground arith

cons-injective : {A : Type 0} {x y : A} {xs ys : List A} → x ∷ xs ≡ y ∷ ys → (x ≡ y) × (xs ≡ ys)
cons-injective h = (cc, cc)

-- The mark of a row, given the references `seen` before the file and the rows `earlier` in it.
abbrev IsMarked : List Text → List UploadPreviewRow → UploadPreviewRow → Type 0
IsMarked seen earlier row =
    (row.row_status ≡ duplicate)
    ↔ ((is_repeated row.investment_reference seen || any (shares_reference row) earlier) ≡ true)

IsMarked-cons :
    (seen : List Text) (e : UploadPreviewRow) (earlier : List UploadPreviewRow)
    (row : UploadPreviewRow)
    → IsMarked (add_seen e.investment_reference seen) earlier row
    → IsMarked seen (e ∷ earlier) row
IsMarked-cons seen e earlier row h =
    rw
      (← or_swap (sql_eq e.investment_reference row.investment_reference)
        (is_repeated row.investment_reference seen) (any (shares_reference row) earlier))
      (rw (is_repeated-add_seen row.investment_reference e.investment_reference seen) at h)

module _ (js : JsNumber) (batch_id : Text) (now : Time) (new_id : ℕ → Text) where
  preview_row-IsMarked :
      (n : ℕ) (seen : List Text) (p : ParsedCsvRecord)
      → IsMarked seen [] (preview_row js batch_id now new_id n seen p)
  unfolding preview_row
  preview_row-IsMarked n seen p =
      let row = preview_row js batch_id now new_id n seen p in
      let b = is_repeated row.investment_reference seen in
      rw (or_false b) (marked b (validation_failures js (normalize_values p.values)))

  duplicate_from :
      (n : ℕ) (seen : List Text) (parsed : List ParsedCsvRecord) (earlier : List UploadPreviewRow)
      (row : UploadPreviewRow) (later : List UploadPreviewRow)
      → (preview js batch_id now new_id n seen parsed).0 ≡ earlier ++ row ∷ later
      → IsMarked seen earlier row
  unfolding preview
  duplicate_from n seen [] [] row later h = cc
  duplicate_from n seen [] (e ∷ earlier) row later h = cc
  duplicate_from n seen (p ∷ parsed) [] row later h =
      subst (IsMarked seen []) (cons-injective h).0 (preview_row-IsMarked n seen p)
  duplicate_from n seen (p ∷ parsed) (e ∷ earlier) row later h =
      let first = preview_row js batch_id now new_id n seen p in
      subst (λ (x : UploadPreviewRow). IsMarked seen (x ∷ earlier) row) (cons-injective h).0
        (IsMarked-cons seen first earlier row (
          duplicate_from (n + 1 + length (validation_failures js (normalize_values p.values)))
            (add_seen first.investment_reference seen) parsed earlier row later
            (cons-injective h).1))

  -- A row of a file is marked as a duplicate exactly when an earlier row of the file carries the same
  -- reference, whether that earlier row is valid or not.
  pub preview-duplicate_iff :
      (parsed : List ParsedCsvRecord) (earlier : List UploadPreviewRow) (row : UploadPreviewRow)
      (later : List UploadPreviewRow)
      → (preview js batch_id now new_id 0 [] parsed).0 ≡ earlier ++ row ∷ later
      → (row.row_status ≡ duplicate) ↔ (any (shares_reference row) earlier ≡ true)
  preview-duplicate_iff parsed earlier row later h =
      rw is_repeated-nil at (duplicate_from 0 [] parsed earlier row later h)
