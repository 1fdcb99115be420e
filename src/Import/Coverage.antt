-- ===== src/Import/Coverage.antt =====
-- No valid row is lost without the database having refused it.
use wealth_track.Prelude.{
  ℕ, ◌+◌, ◌≡◌, refl, ◌⊎◌, Bool, true, false, ◌||◌, List, [], ◌∷◌, Option, none, some, arith, All,
  any, any_mono, any-concat, any-append_left, Bool-cases, Option-cases, inl, inr,
}
use wealth_track.Prelude.Text.{Text, text_eq_refl, text_eq_iff}
use wealth_track.Rows.{UploadPreviewRow, InvestmentRecordRow, ConfirmImportJob}
use wealth_track.Store.{Store}
use wealth_track.Store.Queries.{sql_eq, collides, insert_investment}
use wealth_track.Store.Unique.{insert-eq-some, insert-eq-none}
use wealth_track.Import.Preload.{existing_references_recognise_nothing}
use wealth_track.Import.{
  Clock, Progress, References, truthy, has, add, track, is_known, to_record, insert_outcome,
  import_row, import_rows, finish, handle, importable_rows,
}

-- The record holds the reference or the source hash of the row.
abbrev pub holds_key : UploadPreviewRow → InvestmentRecordRow → Bool
holds_key row r =
    sql_eq row.investment_reference r.investment_reference
    || sql_eq row.source_record_hash r.source_record_hash

-- The record was made from the row.
abbrev pub stems_from : UploadPreviewRow → InvestmentRecordRow → Bool
stems_from row r = sql_eq r.upload_batch_row_id (some row.id)

abbrev pub is_present : UploadPreviewRow → InvestmentRecordRow → Bool
is_present row r = stems_from row r || holds_key row r

-- Each reference that is tracked stands in the table.
abbrev IsTracked : Progress → Type 0
IsTracked p =
    (r : Text)
    → has (some r) p.existing_refs ≡ true
    → any (λ x. sql_eq (some r) x.investment_reference) p.table ≡ true

truthy-eq-some : (o : Option Text) {r : Text} → truthy o ≡ some r → o ≡ some r
unfolding truthy
truthy-eq-some none h = cc
truthy-eq-some (some []) h = cc
truthy-eq-some (some (c ∷ s)) h = h

has-track :
    (o : Option Text) (refs : References) (r : Text)
    → has (some r) (track o refs) ≡ true
    → (has (some r) refs ≡ true) ⊎ (o ≡ some r)
unfolding add has
has-track none refs r h = inl h
has-track (some x) refs r h = ground (arith, text_eq_iff x r)

module _ (clock : Clock) (new_id : ℕ → Text) (job : ConfirmImportJob)
    (accepts : InvestmentRecordRow → Bool) where
  -- The row is in the table, by a record of its own or by one of its keys, or the database refused
  -- it by a check that is not a unique key.
  abbrev pub IsCovered : UploadPreviewRow → List InvestmentRecordRow → Type 0
  IsCovered row table =
      (any (is_present row) table ≡ true)
      ⊎ ((n : ℕ) × (accepts (to_record clock new_id job n row) ≡ false))

  module _ (n : ℕ) (row : UploadPreviewRow) (p : Progress) where
    abbrev own_record : InvestmentRecordRow
    own_record = to_record clock new_id job n row

    own_record-present : is_present row own_record ≡ true
    unfolding to_record
    own_record-present = rw (text_eq_refl row.id)

    own_reference :
        (r : Text)
        → truthy row.investment_reference ≡ some r
        → sql_eq (some r) own_record.investment_reference ≡ true
    unfolding to_record
    own_reference r h = rw (truthy-eq-some row.investment_reference h) (text_eq_refl r)

    shares-present :
        (r : Text)
        → row.investment_reference ≡ some r
        → (x : InvestmentRecordRow) → sql_eq (some r) x.investment_reference ≡ true
        → is_present row x ≡ true
    shares-present r e x h = rw e (ground arith)

    collides-present :
        (x : InvestmentRecordRow) → collides own_record x ≡ true → is_present row x ≡ true
    unfolding collides to_record
    collides-present x h = ground arith

    outcome-keeps :
        (o : Option (List InvestmentRecordRow))
        → insert_investment accepts own_record p.table ≡ o
        → (q : InvestmentRecordRow → Bool) → any q p.table ≡ true
        → any q (insert_outcome (truthy row.investment_reference) p o).table ≡ true
    unfolding insert_outcome
    outcome-keeps none h q a = a
    outcome-keeps (some table) h q a =
        rw (insert-eq-some accepts own_record p.table h) (any-append_left q p.table _ a)

    outcome-IsTracked :
        (o : Option (List InvestmentRecordRow))
        → insert_investment accepts own_record p.table ≡ o
        → IsTracked p
        → IsTracked (insert_outcome (truthy row.investment_reference) p o)
    unfolding insert_outcome
    outcome-IsTracked none h t = λ r has_r. t r has_r
    outcome-IsTracked (some table) h t = λ r has_r.
        rw (insert-eq-some accepts own_record p.table h)
          (elim (has-track (truthy row.investment_reference) p.existing_refs r has_r) [
            | inl old ↦
                any-append_left (λ x. sql_eq (some r) x.investment_reference) p.table _ (t r old)
            | inr new ↦
                any-concat (λ x. sql_eq (some r) x.investment_reference) p.table own_record
                  (own_reference r new)
          ])

    outcome-covers :
        (o : Option (List InvestmentRecordRow))
        → insert_investment accepts own_record p.table ≡ o
        → IsCovered row (insert_outcome (truthy row.investment_reference) p o).table
    unfolding insert_outcome
    outcome-covers none h = elim (insert-eq-none accepts own_record p.table h) [
      | inl refused ↦ inr (n, refused)
      | inr collision ↦
          inl (any_mono (collides own_record) (is_present row) p.table collides-present collision)
    ]
    outcome-covers (some table) h = inl (
        rw (insert-eq-some accepts own_record p.table h)
          (any-concat (is_present row) p.table own_record own_record-present))

    known-covers :
        IsTracked p
        → is_known (truthy row.investment_reference) p.existing_refs ≡ true
        → any (is_present row) p.table ≡ true
    known-covers t known = elim (Option-cases (truthy row.investment_reference)) [
      | inl no_reference ↦ cc (rw no_reference at known)
      | inr (r, reference) ↦
          any_mono (λ x. sql_eq (some r) x.investment_reference) (is_present row) p.table
            (shares-present r (truthy-eq-some row.investment_reference reference))
            (t r (rw reference at known))
    ]

    import_row-keeps :
        (q : InvestmentRecordRow → Bool)
        → any q p.table ≡ true
        → any q (import_row clock new_id job accepts n row p).table ≡ true
    unfolding import_row
    import_row-keeps q a =
        elim (Bool-cases (is_known (truthy row.investment_reference) p.existing_refs)) [
          | inl known ↦ rw known a
          | inr fresh ↦ rw fresh (outcome-keeps _ refl q a)
        ]

    import_row-IsTracked : IsTracked p → IsTracked (import_row clock new_id job accepts n row p)
    unfolding import_row
    import_row-IsTracked t =
        elim (Bool-cases (is_known (truthy row.investment_reference) p.existing_refs)) [
          | inl known ↦ rw known t
          | inr fresh ↦ rw fresh (outcome-IsTracked _ refl t)
        ]

    import_row-covers :
        IsTracked p → IsCovered row (import_row clock new_id job accepts n row p).table
    unfolding import_row
    import_row-covers t =
        elim (Bool-cases (is_known (truthy row.investment_reference) p.existing_refs)) [
          | inl known ↦ rw known (inl (known-covers t known))
          | inr fresh ↦ rw fresh (outcome-covers _ refl)
        ]

  import_rows-keeps :
      (n : ℕ) (rows : List UploadPreviewRow) (p : Progress) (q : InvestmentRecordRow → Bool)
      → any q p.table ≡ true
      → any q (import_rows clock new_id job accepts n rows p).table ≡ true
  unfolding import_rows
  import_rows-keeps n [] p q a = a
  import_rows-keeps n (row ∷ rows) p q a =
      import_rows-keeps (n + 1) rows (import_row clock new_id job accepts n row p) q
        (import_row-keeps n row p q a)

  import_rows-covers :
      (n : ℕ) (rows : List UploadPreviewRow) (p : Progress)
      → IsTracked p
      → All (λ row. IsCovered row (import_rows clock new_id job accepts n rows p).table) rows
  unfolding import_rows
  import_rows-covers n [] p t = tt
  import_rows-covers n (row ∷ rows) p t = (
    elim (import_row-covers n row p t) [
      | inl present ↦ inl (
          import_rows-keeps (n + 1) rows (import_row clock new_id job accepts n row p)
            (is_present row) present)
      | inr refused ↦ inr refused
    ],
    import_rows-covers (n + 1) rows (import_row clock new_id job accepts n row p)
        (import_row-IsTracked n row p t),
  )

  finish-covers :
      (rows : List UploadPreviewRow) (s : Store)
      → All (λ row. IsCovered row (finish clock new_id job accepts rows s).1.investments) rows
  unfolding finish
  finish-covers [] s = tt
  finish-covers (row ∷ rows) s =
      import_rows-covers 0 (row ∷ rows) _
        (λ r h. cc (h, existing_references_recognise_nothing (row ∷ rows) s.investments r))

  -- After an import each row of the batch that is marked valid has a record made from it, or its
  -- reference or source hash is held by a record, or the database refused it by a check that is not a
  -- unique key.
  pub handle-covers :
      (s : Store)
      → All
          (λ row. IsCovered row (handle clock new_id job accepts s).1.investments)
          (importable_rows job.batch_id s.rows)
  unfolding handle
  handle-covers s = finish-covers (importable_rows job.batch_id s.rows) _
