-- ===== src/Uploads/Deletion.antt =====
-- What the bulk deletion of uploads removes, and what it leaves alone.
use wealth_track.Prelude.{
  ℕ, ◌≡◌, ◌+◌, refl, Bool, true, false, not, List, [], ◌∷◌, Option, none, some, arith, filter, find,
  length,
}
use wealth_track.Prelude.Text.{Text, codes, text_eq, text_eq_iff, includes}
use wealth_track.Prelude.Action.{ok}
use wealth_track.Rows.{InvestmentRecordRow}
use wealth_track.Store.{Store}
use wealth_track.Store.Laws.{length-filter-not}
use wealth_track.Store.Queries.{find_batch, rows_of_batch, errors_of_batch, sql_eq}
use wealth_track.Actor.{AuthenticatedActor, permits}
use wealth_track.Uploads.{delete_by_ids, delete_unless_empty, bulk_delete_by_ids, is_of}

module _ {A : Type 0} (p q : A → Bool) where
  filter-covered :
      ((x : A) → p x ≡ true → q x ≡ true)
      → (xs : List A) → filter p (filter (λ x. not (q x)) xs) ≡ []
  filter-covered h [] = refl
  filter-covered h (x ∷ xs) = ground (arith, h x, filter-covered h xs)

  filter-apart :
      ((x : A) → p x ≡ true → q x ≡ false)
      → (xs : List A) → filter p (filter (λ x. not (q x)) xs) ≡ filter p xs
  filter-apart h [] = refl
  filter-apart h (x ∷ xs) = ground (arith, h x, filter-apart h xs)

  find-covered :
      ((x : A) → p x ≡ true → q x ≡ true)
      → (xs : List A) → find p (filter (λ x. not (q x)) xs) ≡ none
  find-covered h [] = refl
  find-covered h (x ∷ xs) = ground (arith, h x, find-covered h xs)

  find-apart :
      ((x : A) → p x ≡ true → q x ≡ false)
      → (xs : List A) → find p (filter (λ x. not (q x)) xs) ≡ find p xs
  find-apart h [] = refl
  find-apart h (x ∷ xs) = ground (arith, h x, find-apart h xs)

-- A column that equals an identifier is in a list exactly when the identifier is.
includes-text_eq :
    (ids : List Text) (column id : Text) {b : Bool}
    → includes ids id ≡ b
    → text_eq column id ≡ true
    → includes ids column ≡ b
includes-text_eq ids column id h e = rw ((text_eq_iff column id).0 e) h

is_of-sql_eq :
    (ids : List Text) (column : Option Text) (id : Text) {b : Bool}
    → includes ids id ≡ b
    → sql_eq column (some id) ≡ true
    → is_of ids column ≡ b
is_of-sql_eq ids none id h e = cc
is_of-sql_eq ids (some column) id h e = includes-text_eq ids column id h e

-- `WHERE import_batch_id = ?`
abbrev pub records_of_batch : Text → List InvestmentRecordRow → List InvestmentRecordRow
records_of_batch id = filter (λ r. sql_eq r.import_batch_id (some id))

-- Nothing of an upload is stored.
pub record IsGone (id : Text) (t : Store) : Type 0 where
  pub no_batch : find_batch id t.batches ≡ none
  pub no_rows : rows_of_batch id t.rows ≡ []
  pub no_errors : errors_of_batch id t.errors ≡ []
  pub no_records : records_of_batch id t.investments ≡ []

-- All that is stored of an upload is what was stored before.
pub record IsKept (id : Text) (s t : Store) : Type 0 where
  pub batch : find_batch id t.batches ≡ find_batch id s.batches
  pub rows : rows_of_batch id t.rows ≡ rows_of_batch id s.rows
  pub errors : errors_of_batch id t.errors ≡ errors_of_batch id s.errors
  pub records : records_of_batch id t.investments ≡ records_of_batch id s.investments

delete_by_ids-IsGone :
    (ids : List Text) (s : Store) (id : Text)
    → includes ids id ≡ true
    → IsGone id (delete_by_ids ids s).1
unfolding delete_by_ids find_batch rows_of_batch errors_of_batch
delete_by_ids-IsGone ids s id h = record {
  no_batch =
      find-covered (λ b. text_eq b.id id) (λ b. includes ids b.id)
        (λ b. includes-text_eq ids b.id id h) s.batches;
  no_rows =
      filter-covered (λ r. text_eq r.upload_batch_id id) (λ r. includes ids r.upload_batch_id)
        (λ r. includes-text_eq ids r.upload_batch_id id h) s.rows;
  no_errors =
      filter-covered (λ e. text_eq e.upload_batch_id id) (λ e. includes ids e.upload_batch_id)
        (λ e. includes-text_eq ids e.upload_batch_id id h) s.errors;
  no_records =
      filter-covered (λ r. sql_eq r.import_batch_id (some id)) (λ r. is_of ids r.import_batch_id)
        (λ r. is_of-sql_eq ids r.import_batch_id id h) s.investments;
}

delete_by_ids-IsKept :
    (ids : List Text) (s : Store) (id : Text)
    → includes ids id ≡ false
    → IsKept id s (delete_by_ids ids s).1
unfolding delete_by_ids find_batch rows_of_batch errors_of_batch
delete_by_ids-IsKept ids s id h = record {
  batch =
      find-apart (λ b. text_eq b.id id) (λ b. includes ids b.id)
        (λ b. includes-text_eq ids b.id id h) s.batches;
  rows =
      filter-apart (λ r. text_eq r.upload_batch_id id) (λ r. includes ids r.upload_batch_id)
        (λ r. includes-text_eq ids r.upload_batch_id id h) s.rows;
  errors =
      filter-apart (λ e. text_eq e.upload_batch_id id) (λ e. includes ids e.upload_batch_id)
        (λ e. includes-text_eq ids e.upload_batch_id id h) s.errors;
  records =
      filter-apart (λ r. sql_eq r.import_batch_id (some id)) (λ r. is_of ids r.import_batch_id)
        (λ r. is_of-sql_eq ids r.import_batch_id id h) s.investments;
}

delete_by_ids-counted :
    (ids : List Text) (s : Store)
    → (n : ℕ) × ((delete_by_ids ids s).0 ≡ ok n)
      × (n + length (delete_by_ids ids s).1.batches ≡ length s.batches)
unfolding delete_by_ids
delete_by_ids-counted ids s = (_, refl, length-filter-not (λ b. includes ids b.id) s.batches)

-- An actor who may manage all uploads and deletes by identifiers removes the batch, the rows, the
-- errors and the investment records of an upload that is named, leaves those of an upload that is
-- not named as they were, and is told by how many the batches have become fewer.
pub bulk_delete_by_ids_lem :
    (actor : AuthenticatedActor) (ids : List Text) (s : Store) (gone kept : Text)
    → permits (some actor) (codes "users.create") ≡ true
    → includes ids gone ≡ true
    → includes ids kept ≡ false
    → let (r, t) = bulk_delete_by_ids actor ids s in
      IsGone gone t
      × IsKept kept s t
      × ((n : ℕ) × (r ≡ ok n) × (n + length t.batches ≡ length s.batches))
unfolding bulk_delete_by_ids delete_unless_empty
bulk_delete_by_ids_lem actor [] s gone kept h g k = cc
bulk_delete_by_ids_lem actor (id ∷ ids) s gone kept h g k = rw h (
  delete_by_ids-IsGone (id ∷ ids) s gone g,
  delete_by_ids-IsKept (id ∷ ids) s kept k,
  delete_by_ids-counted (id ∷ ids) s,
)
