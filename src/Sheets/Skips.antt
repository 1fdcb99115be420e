-- ===== src/Sheets/Skips.antt =====
-- How a row of a sheet ends, and that no row is recognised as unchanged.
use wealth_track.Prelude.{
  ℕ, suc, ◌+◌, ◌≡◌, refl, ◌∙◌, ap, Bool, true, false, not, ◌&&◌, List, [], ◌∷◌, ◌++◌, Option, none,
  some, find, all, filter, length, arith, Bool-cases, Option-cases, inl, inr,
}
use wealth_track.Prelude.Text.{Text, codes, text_eq}
use wealth_track.Prelude.Action.{Result, HttpError, ok, err, continue}
use wealth_track.Csv.{value_of}
use wealth_track.RowMapper.{to_camel_case_row}
use wealth_track.Rows.{GoogleSheetTabRow, GoogleSheetRowChecksumRow, InvestmentRecordRow, Cell}
use wealth_track.Store.{Store}
use wealth_track.Sheets.Cells.{is_blank, get, missing_fields, map_row}
use wealth_track.Sheets.Rows.{
  Env, Counts, one_valid, one_invalid, one_skipped, stored_checksum, is_unchanged, has_some,
  is_checksum_of, error_row, write_record, write_checksum, import_row, record_row, process_row,
  process_rows,
}

-- The checksum that is read back is never there: its column has been renamed.
stored_checksum-none : (e : Option GoogleSheetRowChecksumRow) → stored_checksum e ≡ none
unfolding stored_checksum value_of to_camel_case_row text_eq
stored_checksum-none none = refl
stored_checksum-none (some e) = refl

is_unchanged-false :
    (e : Option GoogleSheetRowChecksumRow) (sum : Text) → is_unchanged e sum ≡ false
is_unchanged-false e sum =
    ap (λ o. elim o [ none ↦ false | some stored ↦ text_eq stored sum ]) (stored_checksum-none e)

-- The counts are as expected, if there is no exception.
abbrev pub CountedAs : Counts → Result Counts → Type 0
CountedAs expected (ok c) = c ≡ expected
CountedAs expected (err e) = Unit

module _ (env : Env) (tab : GoogleSheetTabRow) (batch_id actor_id : Text) (fields : List Text) where
  -- A row that is not blank and has all required fields.
  abbrev pub is_complete : List Cell → Bool
  is_complete row =
      not (all is_blank row) && not (has_some (missing_fields (map_row fields row [])))

  -- The ways in which a row ends: skipped as blank, listed as an error, refused by the database, or
  -- written with its checksum.
  pub data RowEnd (index : ℕ) (row : List Cell) (counts : Counts) (s : Store)
      : Result Counts × Store → Type 0 where
    blank : all is_blank row ≡ true → RowEnd index row counts s (ok (one_skipped counts), s)
    incomplete :
        all is_blank row ≡ false
        → is_complete row ≡ false
        → RowEnd index row counts s (
          ok (one_invalid counts),
          record s {
            sync_errors =
                s.sync_errors
                ++ error_row env tab batch_id actor_id index (map_row fields row []) ∷ [];
          },
        )
    refused : is_complete row ≡ true → (e : HttpError) → RowEnd index row counts s (err e, s)
    written :
        is_complete row ≡ true
        → (tenor_days : ℕ)
        → env.number (get (codes "tenor_days") (map_row fields row [])) ≡ some tenor_days
        → (id : Text) (table : List InvestmentRecordRow)
        → write_record env tab batch_id actor_id index
            (map_row fields row [])
            (env.checksum row)
            tenor_days
            s.investments
          ≡ some (id, table)
        → RowEnd index row counts s (
          ok (one_valid counts),
          record s {
            investments = table;
            checksums =
                write_checksum env tab batch_id actor_id index
                  (env.checksum row)
                  id
                  (find (is_checksum_of env tab batch_id actor_id index) s.checksums)
                  s.checksums;
          },
        )

  import-RowEnd :
      (index : ℕ) (row : List Cell) (counts : Counts) (s : Store)
      → is_complete row ≡ true
      → has_some (missing_fields (map_row fields row [])) ≡ false
      → RowEnd index row counts s (
          record_row env tab batch_id actor_id index
            (map_row fields row [])
            (env.checksum row)
            (find (is_checksum_of env tab batch_id actor_id index) s.checksums)
            counts
            s)
  unfolding record_row import_row
  import-RowEnd index row counts s complete m =
      elim (Option-cases (env.number (get (codes "tenor_days") (map_row fields row [])))) [
        | inl e ↦ rw (m, e) (refused complete _)
        | inr (days, e) ↦
            elim (Option-cases (
              write_record env tab batch_id actor_id index (map_row fields row [])
                (env.checksum row) days s.investments)) [
                  | inl w ↦ rw (m, e, w) (refused complete _)
                  | inr ((id, table), w) ↦ rw (m, e, w) (written complete days e id table w)
                ]
      ]

  pub process_row-RowEnd :
      (index : ℕ) (row : List Cell) (counts : Counts) (s : Store)
      → RowEnd index row counts s (process_row env tab batch_id actor_id fields index row counts s)
  unfolding process_row record_row
  process_row-RowEnd index row counts s = elim (Bool-cases (all is_blank row)) [
    | inl b ↦ rw b (blank b)
    | inr b ↦
        rw (b, is_unchanged-false _ (env.checksum row))
          (elim (Bool-cases (has_some (missing_fields (map_row fields row [])))) [
            | inl m ↦ rw m (incomplete b (ground arith))
            | inr m ↦ import-RowEnd index row counts s (ground arith) m
          ])
  ]

  -- A row that is neither blank nor complete.
  abbrev pub is_incomplete : List Cell → Bool
  is_incomplete row = not (all is_blank row) && not (is_complete row)

  -- What rows add to the counts: the blank ones are skipped, and only those.
  abbrev pub counted : List (List Cell) → Counts → Counts
  counted rows c = record {
    valid = c.valid + length (filter is_complete rows);
    invalid = c.invalid + length (filter is_incomplete rows);
    skipped = c.skipped + length (filter (all is_blank) rows);
  }

  -- What a synchronisation of rows leaves alone.
  abbrev pub Keeps : Store → Store → Type 0
  Keeps s t = (t.sync_batches ≡ s.sync_batches) × ((t.sources ≡ s.sources) × (t.tabs ≡ s.tabs))

  -- Rows end with the counts of the rows, or with an exception.
  abbrev pub Counted : List (List Cell) → Counts → Result Counts → Type 0
  Counted rows c = CountedAs (counted rows c)

  counted-nil : (c : Counts) → c ≡ counted [] c
  counted-nil c = ground arith

  counted-blank :
      (row : List Cell) (rows : List (List Cell)) (c : Counts)
      → all is_blank row ≡ true
      → counted rows (one_skipped c) ≡ counted (row ∷ rows) c
  counted-blank row rows c h = ground arith

  counted_incomplete :
      (row : List Cell) (rows : List (List Cell)) (c : Counts)
      → all is_blank row ≡ false
      → is_complete row ≡ false
      → counted rows (one_invalid c) ≡ counted (row ∷ rows) c
  counted_incomplete row rows c b h = ground arith

  counted_complete :
      (row : List Cell) (rows : List (List Cell)) (c : Counts)
      → is_complete row ≡ true
      → counted rows (one_valid c) ≡ counted (row ∷ rows) c
  counted_complete row rows c h = ground arith

  recount :
      (row : List Cell) (rows : List (List Cell)) (c c' : Counts) (r : Result Counts)
      → counted rows c' ≡ counted (row ∷ rows) c
      → Counted rows c' r
      → Counted (row ∷ rows) c r
  recount row rows c c' (ok final) e h = h ∙ e
  recount row rows c c' (err x) e h = tt

  after_row :
      (index : ℕ) (row : List Cell) (rows : List (List Cell)) (c : Counts) (s : Store)
      (later : Counts → Store → Result Counts × Store)
      → ((c' : Counts) (t : Store) → Counted rows c' (later c' t).0 × Keeps t (later c' t).1)
      → (x : Result Counts × Store) → RowEnd index row c s x
      → Counted (row ∷ rows) c (continue (x.0) later (x.1)).0
        × Keeps s (continue (x.0) later (x.1)).1
  after_row index row rows c s later ih _ (blank b) =
      let h = ih (one_skipped c) s in
      (recount row rows c _ _ (counted-blank row rows c b) (h.0), h.1)
  after_row index row rows c s later ih _ (incomplete b n) =
      let h = ih (one_invalid c) _ in
      (recount row rows c _ _ (counted_incomplete row rows c b n) (h.0), h.1)
  after_row index row rows c s later ih _ (refused k e) = (tt, (refl, (refl, refl)))
  after_row index row rows c s later ih _ (written k days e id table w) =
      let h = ih (one_valid c) _ in
      (recount row rows c _ _ (counted_complete row rows c k) (h.0), h.1)

  -- Rows end with their counts, or with an exception, and leave batches, sources and tabs alone.
  pub process_rows-Counted :
      (index : ℕ) (rows : List (List Cell)) (c : Counts) (s : Store)
      → Counted rows c (process_rows env tab batch_id actor_id fields index rows c s).0
        × Keeps s (process_rows env tab batch_id actor_id fields index rows c s).1
  unfolding process_rows
  process_rows-Counted index [] c s = (counted-nil c, (refl, (refl, refl)))
  process_rows-Counted index (row ∷ rows) c s =
      after_row index row rows c s (process_rows env tab batch_id actor_id fields (suc index) rows)
        (process_rows-Counted (suc index) rows) _ (process_row-RowEnd index row c s)
