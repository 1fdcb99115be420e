-- ===== src/Analytics/Periods.antt =====
-- `isoWeek`, `isoMonth`, `isoQuarter` and `isoYear`: the names of the periods of a date.
use wealth_track.Prelude.{ℕ, ◌+◌, ◌-◌, ◌/◌, ◌==◌, [], ◌∷◌, ◌++◌, Option, if◌then◌else◌}
use wealth_track.Prelude.Text.{Text, codes}

-- JavaScript's dates as far as the figures use them. A day of UTC is its number since 1970-01-01:
-- `utc y m d` is `Date.UTC(y, m, d) / 86400000`, and dates before 1970 are outside the model.
pub record Dates : Type 1 where
  pub Date : Type 0
  -- `new Date(s)`, where it is not NaN
  pub parse : Text → Option Date
  -- `d.toISOString().slice(0, 10)`
  pub iso_day : Date → Text
  pub full_year : Date → ℕ
  pub month : Date → ℕ
  pub day_of_month : Date → ℕ
  pub utc : ℕ → ℕ → ℕ → ℕ
  pub utc_day : ℕ → ℕ
  pub utc_full_year : ℕ → ℕ
  -- `d.getTime()`, by which `a > b` compares dates
  pub time : Date → ℕ
  -- `String(n)`
  pub decimal : ℕ → Text

module _ (dates : Dates) where
  open dates use {Date, full_year, month, day_of_month, utc, utc_day, utc_full_year, decimal}

  -- `s.padStart(2, '0')`
  abbrev pad_two : Text → Text
  pad_two [] = codes "00"
  pad_two (c ∷ []) = b'0' ∷ c ∷ []
  pad_two s = s

  -- `d.getUTCDay() || 7`
  abbrev weekday : ℕ → ℕ
  weekday d = if utc_day d == 0 then 7 else utc_day d

  -- The Thursday of the week of the date.
  thursday : Date → ℕ
  thursday date = let d = utc (full_year date) (month date) (day_of_month date) in d + 4 - weekday d

  unfoldable pub iso_week : Date → Text
  unfolding thursday
  iso_week date =
      let d = thursday date in
      let year_start = utc (utc_full_year d) 0 1 in
      -- `Math.ceil(n / 7)` of a whole number
      let week_no = (d - year_start + 1 + 6) / 7 in
      decimal (utc_full_year d) ++ codes "-W" ++ pad_two (decimal week_no)

  unfoldable pub iso_month : Date → Text
  iso_month date = decimal (full_year date) ++ codes "-" ++ pad_two (decimal (month date + 1))

  unfoldable pub iso_quarter : Date → Text
  iso_quarter date = decimal (full_year date) ++ codes "-Q" ++ decimal (month date / 3 + 1)

  unfoldable pub iso_year : Date → Text
  iso_year date = decimal (full_year date)
