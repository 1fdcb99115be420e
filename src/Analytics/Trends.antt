-- ===== src/Analytics/Trends.antt =====
-- `trends`: the series and the breakdowns of the confirmed investments by every kind of period.
pub mod Points
use wealth_track.Prelude.{Bool, List}
use wealth_track.Prelude.Text.{Text}
use wealth_track.Rows.{InvestmentRecordRow}
use wealth_track.Analytics.{Numbers, Sql, Filter, list_confirmed_valid}
use wealth_track.Analytics.Periods.{Dates, iso_week, iso_month, iso_quarter, iso_year}
use wealth_track.Analytics.Series.{SeriesPoint, build_series_points}
use wealth_track.Analytics.Breakdown.{BreakdownPoint, build_breakdown_points}

pub record TrendBreakdown (Num : Type 0) : Type 0 where
  pub daily : List (BreakdownPoint Num)
  pub weekly : List (BreakdownPoint Num)
  pub monthly : List (BreakdownPoint Num)

pub record Trends (Num : Type 0) : Type 0 where
  pub daily : List (SeriesPoint Num)
  pub weekly : List (SeriesPoint Num)
  pub monthly : List (SeriesPoint Num)
  pub quarterly : List (SeriesPoint Num)
  pub yearly : List (SeriesPoint Num)
  pub trend_breakdown : TrendBreakdown Num

unfoldable pub trends :
    (js : Numbers)
    → Dates
    → (Text → Text → Bool)
    → Sql
    → Filter
    → List InvestmentRecordRow
    → Trends js.Num
unfolding build_series_points build_breakdown_points iso_week iso_month iso_quarter iso_year
trends js dates locale_le sql filter_by table =
    let investments = list_confirmed_valid sql filter_by table in
    record {
      daily = build_series_points js dates locale_le dates.iso_day investments;
      weekly = build_series_points js dates locale_le (iso_week dates) investments;
      monthly = build_series_points js dates locale_le (iso_month dates) investments;
      quarterly = build_series_points js dates locale_le (iso_quarter dates) investments;
      yearly = build_series_points js dates locale_le (iso_year dates) investments;
      trend_breakdown = record {
        daily = build_breakdown_points js dates locale_le dates.iso_day investments;
        weekly = build_breakdown_points js dates locale_le (iso_week dates) investments;
        monthly = build_breakdown_points js dates locale_le (iso_month dates) investments;
      };
    }
