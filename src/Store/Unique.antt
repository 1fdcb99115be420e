-- ===== src/Store/Unique.antt =====
-- When the unique keys of `investment_records`, or its other checks, refuse an INSERT.
use wealth_track.Prelude.{◌≡◌, ◌⊎◌, Bool, true, false, List, [], ◌∷◌, ◌++◌, none, some, arith, any}
use wealth_track.Rows.{InvestmentRecordRow}
use wealth_track.Store.Queries.{collides, insert_investment}

-- A row that is inserted stands at the end of the table.
pub insert-eq-some :
    (accepts : InvestmentRecordRow → Bool) (r : InvestmentRecordRow)
    (table : List InvestmentRecordRow) {table' : List InvestmentRecordRow}
    → insert_investment accepts r table ≡ some table'
    → table' ≡ table ++ r ∷ []
unfolding insert_investment
insert-eq-some accepts r table h = ground arith

-- A row is refused for a unique key, or by another check.
pub insert-eq-none :
    (accepts : InvestmentRecordRow → Bool) (r : InvestmentRecordRow)
    (table : List InvestmentRecordRow)
    → insert_investment accepts r table ≡ none
    → (accepts r ≡ false) ⊎ (any (collides r) table ≡ true)
unfolding insert_investment
insert-eq-none accepts r table h = ground arith

-- A row that is inserted passes every check, and has no key of the table.
pub insert_accepted :
    (accepts : InvestmentRecordRow → Bool) (r : InvestmentRecordRow)
    (table : List InvestmentRecordRow) {table' : List InvestmentRecordRow}
    → insert_investment accepts r table ≡ some table'
    → (accepts r ≡ true) × (any (collides r) table ≡ false)
unfolding insert_investment
insert_accepted accepts r table h = ground arith
