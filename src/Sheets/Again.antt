-- ===== src/Sheets/Again.antt =====
-- What happens to a row of a sheet that is synchronised again.
use wealth_track.Prelude.{
  ℕ, suc, ◌≡◌, refl, sym, ◌∙◌, ap, Bool, true, ◌||◌, List, [], ◌++◌, Option, none, some, any, arith,
  any-append_left, any-concat, any_mono,
}
use mathlib.Core.Option
use wealth_track.Prelude.Text.{Text, codes, text_eq_refl}
use wealth_track.Prelude.Action.{Result, HttpError, ok, err}
use wealth_track.Rows.{GoogleSheetTabRow, InvestmentRecordRow, Cell, Payload}
use wealth_track.Store.{Store}
use wealth_track.Store.Queries.{insert_investment, collides, sql_eq}
use wealth_track.Store.Unique.{insert-eq-some}
use wealth_track.Sheets.Cells.{optional, map_row}
use wealth_track.Sheets.Rows.{
  Env, Counts, one_valid, new_record, write_found, find_by_reference, write_record, process_row,
}
use wealth_track.Sheets.Skips.{
  is_complete, RowEnd, blank, incomplete, refused, written, process_row-RowEnd,
}

-- Some record carries the hash.
abbrev has_hash : Text → List InvestmentRecordRow → Bool
has_hash sum = any (λ r. sql_eq (some sum) r.source_record_hash)

pair-eq-some :
    {A B : Type 0} (i : A) {j : A} (o : Option B) {b : B}
    → Option.map {B = A × B} (λ t. (i, t)) o ≡ some (j, b)
    → o ≡ some b
pair-eq-some i none h = cc
pair-eq-some i (some a) h = cc

-- A table with a record added carries the record's hash.
insert-has_hash :
    (accepts : InvestmentRecordRow → Bool) (r : InvestmentRecordRow) (sum : Text)
    (table table' : List InvestmentRecordRow)
    → r.source_record_hash ≡ some sum
    → insert_investment accepts r table ≡ some table'
    → has_hash sum table' ≡ true
insert-has_hash accepts r sum table table' e h =
    rw (insert-eq-some accepts r table h)
      (any-concat (λ x. sql_eq (some sum) x.source_record_hash) table r (rw e (text_eq_refl sum)))

or_true : (a b : Bool) → b ≡ true → (a || b) ≡ true
or_true a b h = ground arith

-- A record is refused while another carries its hash.
insert-hash :
    (accepts : InvestmentRecordRow → Bool) (r : InvestmentRecordRow) (sum : Text)
    (table : List InvestmentRecordRow)
    → r.source_record_hash ≡ some sum
    → has_hash sum table ≡ true
    → insert_investment accepts r table ≡ none
unfolding insert_investment collides
insert-hash accepts r sum table e h = ground (arith, taken)
  where
    taken : any (collides r) table ≡ true
    taken =
        any_mono (λ x. sql_eq (some sum) x.source_record_hash) (collides r) table
          (λ x k. rw e (or_true _ _ k)) h

module _ (env : Env) (tab : GoogleSheetTabRow) (batch_id actor_id : Text) (index : ℕ)
    (mapped : Payload) (sum : Text)
    (no_reference : optional (codes "investment_reference") mapped ≡ none) where
  record_at : ℕ → InvestmentRecordRow
  record_at days = new_record env tab batch_id actor_id index mapped sum days

  record_at-hash : (days : ℕ) → (record_at days).source_record_hash ≡ some sum
  unfolding record_at
  record_at-hash days = refl

  -- Without a reference a row is inserted.
  write-insert :
      (days : ℕ) (table : List InvestmentRecordRow)
      → write_record env tab batch_id actor_id index mapped sum days table
        ≡ Option.map
            (λ t. (env.new_id tab.id index 0, t))
            (insert_investment env.accepts (record_at days) table)
  unfolding write_record write_found record_at
  write-insert days table =
      ap
        (λ o.
          write_found env tab batch_id actor_id
            (find_by_reference env tab batch_id actor_id o table) index mapped sum days table)
        no_reference

  -- A row whose hash a record carries is refused.
  write-none :
      (days : ℕ) (table : List InvestmentRecordRow)
      → has_hash sum table ≡ true
      → write_record env tab batch_id actor_id index mapped sum days table ≡ none
  write-none days table h =
      write-insert days table
      ∙ ap (Option.map (λ t. (env.new_id tab.id index 0, t)))
          (insert-hash env.accepts (record_at days) sum table (record_at-hash days) h)

  -- An inserted record carries the row's hash.
  write-has_hash :
      (days : ℕ) (id : Text) (table table' : List InvestmentRecordRow)
      → write_record env tab batch_id actor_id index mapped sum days table ≡ some (id, table')
      → has_hash sum table' ≡ true
  write-has_hash days id table table' h =
      insert-has_hash env.accepts (record_at days) sum table table' (record_at-hash days)
        (pair-eq-some _ _ (sym (write-insert days table) ∙ h))

module _ (env : Env) (tab : GoogleSheetTabRow) (batch_id actor_id : Text) (fields : List Text) where
  -- One more than the valid rows, or nothing for an exception.
  abbrev valid_of : Result Counts → ℕ
  valid_of (ok c) = suc c.valid
  valid_of (err e) = 0

  abbrev process : ℕ → List Cell → Counts → Store → Result Counts × Store
  process = process_row env tab batch_id actor_id fields

  abbrev reference_of : List Cell → Option Text
  reference_of row = optional (codes "investment_reference") (map_row fields row [])

  -- A complete row without a reference is refused while a record carries its hash.
  refused_again :
      (index : ℕ) (row : List Cell) (counts : Counts) (u : Store)
      → is_complete env tab batch_id actor_id fields row ≡ true
      → reference_of row ≡ none
      → has_hash (env.checksum row) u.investments ≡ true
      → (x : Result Counts × Store) → RowEnd env tab batch_id actor_id fields index row counts u x
      → (e : HttpError) × (x ≡ (err e, u))
  refused_again index row counts u c n h _ (blank b) = absurd (ground arith)
  refused_again index row counts u c n h _ (incomplete b k) = absurd (ground arith)
  refused_again index row counts u c n h _ (refused k e) = (e, refl)
  refused_again index row counts u c n h _ (written k days e id table w) = absurd (
      ground (
        arith,
        write-none env tab batch_id actor_id index (map_row fields row []) (env.checksum row) n days
            u.investments h,
      ))

  -- A row that was written is complete, and a record carries its hash.
  written_lem :
      (index : ℕ) (row : List Cell) (counts : Counts) (s t : Store)
      → reference_of row ≡ none
      → (x : Result Counts × Store) → RowEnd env tab batch_id actor_id fields index row counts s x
      → x ≡ (ok (one_valid counts), t)
      → (is_complete env tab batch_id actor_id fields row ≡ true)
        × (has_hash (env.checksum row) t.investments ≡ true)
  written_lem index row counts s t n _ (blank b) h =
      absurd (omega (arith, ap (λ x. valid_of (x.0)) h))
  written_lem index row counts s t n _ (incomplete b k) h =
      absurd (omega (arith, ap (λ x. valid_of (x.0)) h))
  written_lem index row counts s t n _ (refused k e) h =
      absurd (omega (arith, ap (λ x. valid_of (x.0)) h))
  written_lem index row counts s t n _ (written k days e id table w) h = (
    k,
    ap (λ x. has_hash (env.checksum row) (x.1).investments) (sym h)
        ∙ write-has_hash env tab batch_id actor_id index (map_row fields row []) (env.checksum row)
            n days id s.investments table w,
  )

  -- When a row of a sheet that gives no reference has been imported, then processing the same row
  -- again throws and changes nothing, in every state that still has the records of the state after
  -- the import: its checksum is not recognised, and its hash is taken by the record of the first time.
  pub process_row_again :
      (index : ℕ) (row : List Cell) (counts : Counts) (s t u : Store)
      (more : List InvestmentRecordRow)
      → reference_of row ≡ none
      → process index row counts s ≡ (ok (one_valid counts), t)
      → u.investments ≡ t.investments ++ more
      → (e : HttpError) × (process index row counts u ≡ (err e, u))
  process_row_again index row counts s t u more n h grown =
      let first =
        written_lem index row counts s t n _
          (process_row-RowEnd env tab batch_id actor_id fields index row counts s) h in
      refused_again index row counts u first.0 n
        (rw grown (any-append_left _ t.investments more first.1)) _
        (process_row-RowEnd env tab batch_id actor_id fields index row counts u)
