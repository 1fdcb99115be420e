-- ===== src/Tests/Figures.antt =====
-- The theorems on the figures of the dashboard, at sample investments.
use wealth_track.Prelude.{
  ℕ, ◌+◌, ◌*◌, ◌/◌, ◌≤◌, ◌≡◌, refl, Bool, true, List, [], ◌∷◌, none, some, filter, ltb, arith,
  if◌then◌else◌,
}
use wealth_track.Prelude.Text.{Text, codes, text_eq}
use wealth_track.Rows.{
  InvestmentRecordRow, CustomerType, FundType, TenorCategory, DataSource, ImportStatus,
  RecordStatus,
}
use wealth_track.Analytics.{Numbers, Sql, no_filter, total, list_confirmed_valid}
use wealth_track.Analytics.Periods.{Dates, iso_week, iso_month, iso_quarter, iso_year}
use wealth_track.Analytics.Trends.{trends}
use wealth_track.Analytics.Trends.Points.{IsSeriesAt, IsBreakdownAt, trends_lem}
use wealth_track.Analytics.Aging.{classify_aging_bucket, from_120, other}
use wealth_track.Analytics.Summary.{summary_of, tenor_category_label}
use wealth_track.Analytics.Summary.Partition.{shared, summary_of_lem}
use wealth_track.Analytics.Customers.{all_items, customer_portfolio}
use wealth_track.Analytics.Customers.Items.{
  item_of, exposure_to, expose_all, of_tenor_code, all_items_lem,
}
use wealth_track.Analytics.Customers.Pages.{pages_from, pages_from-customer_portfolio}
use wealth_track.Analytics.Managers.{manager_items, is_asked_for}
use wealth_track.Analytics.Managers.Items.{manager_item_of, of_manager, filter-manager_items}

abbrev value_of : ℕ → Text → ℕ
value_of n [] = n
value_of n (c ∷ s) = value_of (10 * n + c) s

-- Numbers that are written by their code units, with whole quotients.
abbrev pub numbers : Numbers
numbers = record {
  Num = ℕ;
  of_count = λ n. n;
  number = value_of 0;
  plus = λ a b. a + b;
  times = λ a b. a * b;
  over = λ a b. a / b;
  greater = λ a b. ltb b a;
}

-- A date is its text, and the empty text is none.
abbrev dates : Dates
dates = record {
  Date = Text;
  parse = λ s. elim s [ [] ↦ none | c ∷ t ↦ some (c ∷ t) ];
  iso_day = λ d. d;
  full_year = λ d. 2024;
  month = λ d. 0;
  day_of_month = λ d. 1;
  utc = λ y m d. 19723;
  utc_day = λ d. 1;
  utc_full_year = λ d. 2024;
  time = value_of 0;
  decimal = λ n. if ltb n 10 then (b'0' + n) ∷ [] else codes "2024";
}

abbrev pub sql : Sql
sql = record { not_before = λ a b. true; like = λ a b. true }

abbrev locale_le : Text → Text → Bool
locale_le a b = ltb (value_of 0 a) (value_of 0 b)

abbrev investment : Text → CustomerType → Text → FundType → Text → InvestmentRecordRow
investment customer type date fund amount = record {
  id = customer;
  customer_id = customer;
  customer_name = customer;
  customer_type = type;
  mobilisation_date = date;
  investment_amount = amount;
  fund_type = fund;
  tenor_days = 130;
  tenor_category = TenorCategory.unclassified;
  maturity_date = none;
  investment_reference = none;
  currency = codes "NGN";
  source_channel = none;
  relationship_manager = none;
  cost_of_funds = none;
  import_batch_id = none;
  upload_batch_row_id = none;
  sync_batch_id = none;
  data_source = DataSource.csv_upload;
  import_status = ImportStatus.confirmed;
  record_status = RecordStatus.valid;
  source_record_hash = none;
  confirmed_by = none;
  confirmed_at = none;
  created_at = 1;
  updated_at = 1;
  created_by = none;
  updated_by = none;
}

abbrev c1 : Text
c1 = codes "C1"

abbrev day : Text
day = codes "2024-01-01"

abbrev pub investments : List InvestmentRecordRow
investments =
    investment c1 CustomerType.new day FundType.inflow (codes "1")
    ∷ investment (codes "C2") CustomerType.new [] FundType.inflow (codes "2")
    ∷ investment c1 CustomerType.returning day FundType.rollover (codes "3")
    ∷ []

week_runs : iso_week dates day ≡ codes "2024-W01"
unfolding iso_week
week_runs = refl

month_runs : iso_month dates day ≡ codes "2024-01"
unfolding iso_month
month_runs = refl

label_runs : tenor_category_label (codes "mid_short_term") ≡ codes "Mid Short Term"
unfolding tenor_category_label
label_runs = refl

aging_runs : classify_aging_bucket 130 ≡ from_120
unfolding classify_aging_bucket
aging_runs = refl

aging_gap_runs : classify_aging_bucket 100 ≡ other
unfolding classify_aging_bucket
aging_gap_runs = refl

trends_example :
    let t = trends numbers dates locale_le sql no_filter investments in
    let confirmed = list_confirmed_valid sql no_filter investments in
    IsSeriesAt numbers dates locale_le day confirmed dates.iso_day t.daily
    × IsSeriesAt numbers dates locale_le day confirmed (iso_week dates) t.weekly
    × IsSeriesAt numbers dates locale_le day confirmed (iso_month dates) t.monthly
    × IsSeriesAt numbers dates locale_le day confirmed (iso_quarter dates) t.quarterly
    × IsSeriesAt numbers dates locale_le day confirmed (iso_year dates) t.yearly
    × IsBreakdownAt numbers dates locale_le day confirmed dates.iso_day t.trend_breakdown.daily
    × IsBreakdownAt numbers dates locale_le day confirmed (iso_week dates) t.trend_breakdown.weekly
    × IsBreakdownAt numbers dates locale_le day confirmed
        (iso_month dates)
        t.trend_breakdown.monthly
trends_example = trends_lem numbers dates locale_le sql no_filter investments day

summary_of_example :
    ((summary_of numbers investments).inflow_funds.count
        + (summary_of numbers investments).rollover_funds.count
      ≡ (summary_of numbers investments).investment_count)
    × ((shared numbers (summary_of numbers investments).tenor_breakdown
          ≡ (summary_of numbers investments).investment_count)
        × ((summary_of numbers investments).unique_customers
            ≤ (summary_of numbers investments).new_customers.count
              + (summary_of numbers investments).returning_customers.count))
summary_of_example = summary_of_lem numbers investments

all_items_example :
    (filter (λ x. text_eq x.customer_id c1) (all_items numbers dates investments)
      ≡ item_of numbers dates
          (total numbers investments)
          c1
          (filter (λ r. text_eq r.customer_id c1) investments))
    × (exposure_to numbers dates
          (codes "unclassified")
          (expose_all numbers dates [] (filter (λ r. text_eq r.customer_id c1) investments))
        ≡ total numbers (
            filter
              (of_tenor_code numbers dates (codes "unclassified"))
              (filter (λ r. text_eq r.customer_id c1) investments)))
all_items_example = all_items_lem numbers dates investments c1 (codes "unclassified")

pages_from_example :
    pages_from
      (λ page. (customer_portfolio numbers dates sql page 10 no_filter investments).items)
      1
      (customer_portfolio numbers dates sql 1 10 no_filter investments).total_pages
    ≡ all_items numbers dates (list_confirmed_valid sql no_filter investments)
pages_from_example =
    pages_from-customer_portfolio numbers dates sql 10 no_filter investments (omega arith)

filter-manager_items_example :
    filter
      (λ x. text_eq x.relationship_manager (codes "Unassigned"))
      (manager_items numbers none investments)
    ≡ (if is_asked_for numbers none (codes "Unassigned")
        then manager_item_of numbers
            (codes "Unassigned")
            (filter (of_manager (codes "Unassigned")) investments)
        else [])
filter-manager_items_example = filter-manager_items numbers none investments (codes "Unassigned")
