-- ===== src/Analytics.antt =====
-- apps/api/src/modules/analytics: the figures of the dashboard, computed from the confirmed records
-- (analytics.service.ts), and the query that selects them (repositories/mysql-analytics.repositories.ts).
pub mod Grouping
pub mod Sorting
pub mod Entries
pub mod Periods
pub mod Series
pub mod Tally
pub mod Breakdown
pub mod Trends
pub mod Aging
pub mod Summary
pub mod Customers
pub mod Managers
use wealth_track.Prelude.{
  ℕ, Bool, true, false, ◌&&◌, ◌||◌, List, [], ◌∷◌, Option, none, some, filter,
}
use wealth_track.Prelude.Text.{Text, text_eq, includes}
use wealth_track.Rows.{
  InvestmentRecordRow, RecordStatus, ImportStatus, CustomerType, FundType, TenorCategory,
}
use wealth_track.Import.{truthy}

-- JavaScript's arithmetic as far as the figures use it. The sums are floating point, so no law is
-- asked of it: `number` is `Number(s)`, `of_count` an integer as a number.
pub record Numbers : Type 1 where
  pub Num : Type 0
  pub of_count : ℕ → Num
  pub number : Text → Num
  pub plus : Num → Num → Num
  pub times : Num → Num → Num
  pub over : Num → Num → Num
  pub greater : Num → Num → Bool

-- What MySQL compares: `date >= text` on a DATE column, and `column LIKE '%text%'`.
pub record Sql : Type 0 where
  pub not_before : Text → Text → Bool
  pub like : Text → Text → Bool

-- `AnalyticsDateFilter`, with `undefined` as `none`.
pub record Filter : Type 0 where
  pub from : Option Text
  pub to : Option Text
  pub customer_type : Option CustomerType
  pub q : Option Text

abbrev pub no_filter : Filter
no_filter = record { from = none; to = none; customer_type = none; q = none }

unfoldable pub is_new : CustomerType → Bool
is_new CustomerType.new = true
is_new CustomerType.returning = false

unfoldable pub is_returning : CustomerType → Bool
is_returning CustomerType.new = false
is_returning CustomerType.returning = true

unfoldable pub is_inflow : FundType → Bool
is_inflow FundType.inflow = true
is_inflow FundType.rollover = false

unfoldable pub is_rollover : FundType → Bool
is_rollover FundType.inflow = false
is_rollover FundType.rollover = true

unfoldable pub same_type : CustomerType → CustomerType → Bool
unfolding is_new is_returning
same_type CustomerType.new t = is_new t
same_type CustomerType.returning t = is_returning t

unfoldable pub is_valid : RecordStatus → Bool
is_valid RecordStatus.valid = true
is_valid _ = false

unfoldable pub is_confirmed : ImportStatus → Bool
is_confirmed ImportStatus.confirmed = true
is_confirmed _ = false

-- A condition that is left out where the filter does not set it.
abbrev pub where_set : {A : Type 0} → Option A → (A → Bool) → Bool
where_set none p = true
where_set (some a) p = p a

module _ (sql : Sql) (filter_by : Filter) where
  matches_query : InvestmentRecordRow → Text → Bool
  matches_query r q =
      sql.like r.customer_name q
      || (sql.like r.customer_id q
          || (elim r.relationship_manager [ none ↦ false | some m ↦ sql.like m q ]))

  unfoldable pub is_selected : InvestmentRecordRow → Bool
  unfolding is_valid is_confirmed same_type matches_query truthy is_new is_returning
  is_selected r =
      is_valid r.record_status
      && (is_confirmed r.import_status
          && (where_set (truthy filter_by.from) (sql.not_before r.mobilisation_date)
              && (where_set (truthy filter_by.to) (λ to. sql.not_before to r.mobilisation_date)
                  && (where_set filter_by.customer_type (same_type r.customer_type)
                      && where_set (truthy filter_by.q) (matches_query r)))))

  -- `listConfirmedValid`
  unfoldable pub list_confirmed_valid : List InvestmentRecordRow → List InvestmentRecordRow
  unfolding is_selected
  list_confirmed_valid = filter is_selected

module _ (js : Numbers) where
  -- `Number(record.investmentAmount)`
  abbrev pub amount : InvestmentRecordRow → js.Num
  amount r = js.number r.investment_amount

  -- `records.reduce((s, r) => s + Number(r.investmentAmount), s)`
  unfoldable pub total_from : js.Num → List InvestmentRecordRow → js.Num
  total_from s [] = s
  total_from s (r ∷ rs) = total_from (js.plus s (amount r)) rs

  abbrev pub total : List InvestmentRecordRow → js.Num
  total = total_from (js.of_count 0)

-- `new Set(ids)`: every identifier once, the last one added first.
unfoldable pub add_id : Text → List Text → List Text
add_id id ids = elim (includes ids id) [ true ↦ ids | false ↦ id ∷ ids ]

unfoldable pub ids_from : List Text → List InvestmentRecordRow → List Text
unfolding add_id
ids_from ids [] = ids
ids_from ids (r ∷ rs) = ids_from (add_id r.customer_id ids) rs

-- `new Set(records.map((r) => r.customerId))`
abbrev pub customer_ids : List InvestmentRecordRow → List Text
customer_ids = ids_from []
