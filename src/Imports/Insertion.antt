-- ===== src/Imports/Insertion.antt =====
-- How the INSERTs that an import inside a request makes all at once end.
use wealth_track.Prelude.{
  ◌≡◌, ◌<◌, ◌⊎◌, sym, ◌∙◌, Bool, true, false, List, [], ◌∷◌, ◌++◌, append_assoc, append-nil, any,
  arith, inl, inr, length, Option-cases,
}
use wealth_track.Prelude.Action.{Result, ok, err, internal}
use wealth_track.Rows.{InvestmentRecordRow}
use wealth_track.Store.Queries.{insert_investment, collides}
use wealth_track.Store.Unique.{insert-eq-some, insert-eq-none, insert_accepted}
use wealth_track.Imports.{insert_confirmed}

module _ (accepts : InvestmentRecordRow → Bool) where
  -- Which of the records are stored, after a table: in their order, each that the database accepts and
  -- that has no key of the table or of one stored before it, and no other.
  pub data Stored
      : List InvestmentRecordRow
        → List InvestmentRecordRow
        → List InvestmentRecordRow
        → Type 0 where
    nothing : (table : List InvestmentRecordRow) → Stored table [] []
    stored :
        (table : List InvestmentRecordRow) (r : InvestmentRecordRow)
        (rs taken : List InvestmentRecordRow)
        → accepts r ≡ true
        → any (collides r) table ≡ false
        → Stored (table ++ r ∷ []) rs taken
        → Stored table (r ∷ rs) (r ∷ taken)
    left_out :
        (table : List InvestmentRecordRow) (r : InvestmentRecordRow)
        (rs taken : List InvestmentRecordRow)
        → (accepts r ≡ false) ⊎ (any (collides r) table ≡ true)
        → Stored table rs taken
        → Stored table (r ∷ rs) taken

  -- How the INSERTs of `records` into `table` end.
  pub data Inserted (records table : List InvestmentRecordRow)
      : Result (Unit {0}) × List InvestmentRecordRow → Type 0 where
    whole :
        {table' : List InvestmentRecordRow}
        → Stored table records records
        → table' ≡ table ++ records
        → Inserted records table (ok tt, table')
    broken :
        {table' : List InvestmentRecordRow} (taken : List InvestmentRecordRow)
        → Stored table records taken
        → length taken < length records
        → table' ≡ table ++ taken
        → Inserted records table (err (internal "INSERT refused"), table')

  module _ (r : InvestmentRecordRow) (records table : List InvestmentRecordRow) where
    taken-Inserted :
        {end : Result (Unit {0}) × List InvestmentRecordRow}
        → accepts r ≡ true
        → any (collides r) table ≡ false
        → Inserted records (table ++ r ∷ []) end
        → Inserted (r ∷ records) table end
    taken-Inserted a c (whole k e) =
        whole (stored table r records records a c k) (e ∙ append_assoc table (r ∷ []) records)
    taken-Inserted a c (broken taken k l f) =
        broken (r ∷ taken) (stored table r records taken a c k) (omega arith)
          (f ∙ append_assoc table (r ∷ []) taken)

    refused-Inserted :
        {end : Result (Unit {0}) × List InvestmentRecordRow}
        → (accepts r ≡ false) ⊎ (any (collides r) table ≡ true)
        → Inserted records table end
        → Inserted (r ∷ records) table (err (internal "INSERT refused"), end.1)
    refused-Inserted n (whole k e) =
        broken records (left_out table r records records n k) (omega arith) e
    refused-Inserted n (broken taken k l f) =
        broken taken (left_out table r records taken n k) (omega arith) f

  pub insert_confirmed-Inserted :
      (records table : List InvestmentRecordRow)
      → Inserted records table (insert_confirmed accepts records table)
  unfolding insert_confirmed
  insert_confirmed-Inserted [] table = whole (nothing table) (sym (append-nil table))
  insert_confirmed-Inserted (r ∷ records) table =
      elim (Option-cases (insert_investment accepts r table)) [
        | inl e ↦
            rw (insert_confirmed, e)
              (refused-Inserted r records table (insert-eq-none accepts r table e)
                (insert_confirmed-Inserted records table))
        | inr (table', e) ↦
            let (a, c) = insert_accepted accepts r table e in
            rw (insert_confirmed, e, insert-eq-some accepts r table e)
              (taken-Inserted r records table a c
                (insert_confirmed-Inserted records (table ++ r ∷ [])))
      ]
