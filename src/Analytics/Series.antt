-- ===== src/Analytics/Series.antt =====
-- `buildSeriesPoints`: the money and the number of the investments of each period.
use wealth_track.Prelude.{
  ℕ, ◌+◌, ◌≡◌, refl, ◌∙◌, ap, Bool, List, [], ◌∷◌, map, Option, none, some, filter, length, arith,
}
use mathlib.Core.Option
use wealth_track.Prelude.Text.{Text, text_eq}
use wealth_track.Rows.{InvestmentRecordRow}
use wealth_track.Analytics.{Numbers, amount, total, total_from}
use wealth_track.Analytics.Grouping.{group, accumulate, of_key}
use wealth_track.Analytics.Sorting.{sort}
use wealth_track.Analytics.Entries.{items_of, filter-map-sort-group}
use wealth_track.Analytics.Periods.{Dates}

pub record Bucket (Num : Type 0) : Type 0 where
  pub total_investment : Num
  pub investment_count : ℕ

pub record SeriesPoint (Num : Type 0) : Type 0 where
  pub period : Text
  pub total_investment : Num
  pub investment_count : ℕ

-- `keyFn(new Date(record.mobilisationDate))`, where the date is not NaN
abbrev pub period_of : (dates : Dates) → (dates.Date → Text) → InvestmentRecordRow → Option Text
period_of dates key_fn r = Option.map key_fn (dates.parse r.mobilisation_date)

-- `locale_le a b` says that `a.localeCompare(b) <= 0`.
module _ (js : Numbers) (dates : Dates) (locale_le : Text → Text → Bool)
    (key_fn : dates.Date → Text) where
  open js use {Num, of_count, plus}

  abbrev empty_bucket : InvestmentRecordRow → Bucket Num
  empty_bucket r = record { total_investment = of_count 0; investment_count = 0 }

  abbrev add_to_bucket : InvestmentRecordRow → Bucket Num → Bucket Num
  add_to_bucket r b = record {
    total_investment = plus b.total_investment (amount js r);
    investment_count = b.investment_count + 1;
  }

  abbrev to_point : Text × Bucket Num → SeriesPoint Num
  to_point (p, b) = record {
    period = p;
    total_investment = b.total_investment;
    investment_count = b.investment_count;
  }

  unfoldable pub build_series_points : List InvestmentRecordRow → List (SeriesPoint Num)
  build_series_points investments = map to_point (
      sort (λ a b. locale_le (a.0) (b.0))
        (group (period_of dates key_fn) empty_bucket add_to_bucket investments []))

  -- The investments of a period, in their order.
  abbrev pub in_period : Text → List InvestmentRecordRow → List InvestmentRecordRow
  in_period p = filter (of_key (period_of dates key_fn) empty_bucket add_to_bucket p)

  -- The point of a period, stated of its investments.
  abbrev pub point_of : Text → List InvestmentRecordRow → List (SeriesPoint Num)
  point_of p [] = []
  point_of p (r ∷ rs) =
      (record {
        period = p;
        total_investment = total js (r ∷ rs);
        investment_count = length (r ∷ rs);
      })
      ∷ []

  accumulate-bucket :
      (b : Bucket Num) (rs : List InvestmentRecordRow)
      → accumulate (period_of dates key_fn) empty_bucket add_to_bucket (some b) rs
        ≡ some (record {
          total_investment = total_from js b.total_investment rs;
          investment_count = b.investment_count + length rs;
        })
  unfolding accumulate total_from
  accumulate-bucket b [] = ground arith
  accumulate-bucket b (r ∷ rs) = ground (arith, accumulate-bucket (add_to_bucket r b) rs)

  items-accumulate :
      (p : Text) (rs : List InvestmentRecordRow)
      → items_of to_point p (accumulate (period_of dates key_fn) empty_bucket add_to_bucket none rs)
        ≡ point_of p rs
  unfolding accumulate total_from
  items-accumulate p [] = refl
  items-accumulate p (r ∷ rs) =
      ap (items_of to_point p) (accumulate-bucket (add_to_bucket r (empty_bucket r)) rs)
      ∙ ground arith

  -- A series has no point of a period in which no investment with a readable date falls, and exactly
  -- one of any other period. That point has the sum of the investments of the period, added up from
  -- the first to the last, and their number.
  pub filter-build_series_points :
      (investments : List InvestmentRecordRow) (p : Text)
      → filter (λ x. text_eq x.period p) (build_series_points investments)
        ≡ point_of p (in_period p investments)
  unfolding build_series_points
  filter-build_series_points investments p =
      filter-map-sort-group to_point (λ x. x.period) (λ e. refl) (period_of dates key_fn)
        empty_bucket add_to_bucket _ investments p
      ∙ items-accumulate p (in_period p investments)
