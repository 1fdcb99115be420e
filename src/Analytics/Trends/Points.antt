-- ===== src/Analytics/Trends/Points.antt =====
-- What the points of the trends are, stated of the investments of their periods.
use wealth_track.Prelude.{◌≡◌, Bool, List, filter}
use wealth_track.Prelude.Text.{Text, text_eq}
use wealth_track.Rows.{InvestmentRecordRow}
use wealth_track.Analytics.{Numbers, Sql, Filter, list_confirmed_valid}
use wealth_track.Analytics.Periods.{Dates, iso_week, iso_month, iso_quarter, iso_year}
use wealth_track.Analytics.Series.{SeriesPoint, in_period, point_of, filter-build_series_points}
use wealth_track.Analytics.Breakdown.{
  BreakdownPoint, in_breakdown_period, breakdown_of, filter-build_breakdown_points,
}
use wealth_track.Analytics.Trends.{trends}

module _ (js : Numbers) (dates : Dates) (locale_le : Text → Text → Bool) (p : Text)
    (investments : List InvestmentRecordRow) where
  -- The points of the period in a series by `key_fn` are those that its investments make.
  abbrev pub IsSeriesAt : (dates.Date → Text) → List (SeriesPoint js.Num) → Type 0
  IsSeriesAt key_fn points =
      filter (λ x. text_eq x.period p) points
      ≡ point_of js dates locale_le key_fn p (in_period js dates locale_le key_fn p investments)

  -- Likewise in a breakdown.
  abbrev pub IsBreakdownAt : (dates.Date → Text) → List (BreakdownPoint js.Num) → Type 0
  IsBreakdownAt key_fn points =
      filter (λ x. text_eq x.period p) points
      ≡ breakdown_of js dates locale_le key_fn p
          (in_breakdown_period js dates locale_le key_fn p investments)

-- Each of the five series and of the three breakdowns of the trends has no point of a period in which
-- no confirmed and valid investment that passes the filter falls by a readable date, and exactly one
-- of any other period. The point of a series has the sum of the investments of its period, added up
-- from the first to the last, and their number. The point of a breakdown has the sums of those of
-- each kind of customer, of fund and of tenor; its unique customers are the different customers with
-- new investments and the different ones with returning investments added together, so a customer
-- with both is counted twice.
pub trends_lem :
    (js : Numbers) (dates : Dates) (locale_le : Text → Text → Bool) (sql : Sql) (filter_by : Filter)
    (table : List InvestmentRecordRow) (p : Text)
    → let t = trends js dates locale_le sql filter_by table in
      let investments = list_confirmed_valid sql filter_by table in
      IsSeriesAt js dates locale_le p investments dates.iso_day t.daily
      × IsSeriesAt js dates locale_le p investments (iso_week dates) t.weekly
      × IsSeriesAt js dates locale_le p investments (iso_month dates) t.monthly
      × IsSeriesAt js dates locale_le p investments (iso_quarter dates) t.quarterly
      × IsSeriesAt js dates locale_le p investments (iso_year dates) t.yearly
      × IsBreakdownAt js dates locale_le p investments dates.iso_day t.trend_breakdown.daily
      × IsBreakdownAt js dates locale_le p investments (iso_week dates) t.trend_breakdown.weekly
      × IsBreakdownAt js dates locale_le p investments (iso_month dates) t.trend_breakdown.monthly
unfolding trends
trends_lem js dates locale_le sql filter_by table p =
    let investments = list_confirmed_valid sql filter_by table in
    let series = λ (key_fn : dates.Date → Text).
      filter-build_series_points js dates locale_le key_fn investments p in
    let breakdown = λ (key_fn : dates.Date → Text).
      filter-build_breakdown_points js dates locale_le key_fn investments p in
    (
      series dates.iso_day,
      series (iso_week dates),
      series (iso_month dates),
      series (iso_quarter dates),
      series (iso_year dates),
      breakdown dates.iso_day,
      breakdown (iso_week dates),
      breakdown (iso_month dates),
    )
