-- ===== src/Analytics/Customers/Latest.antt =====
-- Which record of a customer counts as the last one.
use wealth_track.Prelude.{
  ℕ, ◌≡◌, refl, Bool, true, false, List, [], ◌∷◌, Option, none, some, any, ltb, ◌==◌, arith,
  Option-cases, inl, inr, if◌then◌else◌,
}
use wealth_track.Rows.{InvestmentRecordRow}
use wealth_track.Analytics.{Numbers}
use wealth_track.Analytics.Periods.{Dates}
use wealth_track.Analytics.Customers.{latest}

module _ (js : Numbers) (dates : Dates) where
  -- What the loop keeps, from a first record on.
  unfoldable pub latest_of : InvestmentRecordRow → List InvestmentRecordRow → InvestmentRecordRow
  unfolding latest
  latest_of best [] = best
  latest_of best (r ∷ rs) = latest_of (latest js dates (some best) r) rs

  -- The time of a record, if its date is readable.
  abbrev pub time_of : InvestmentRecordRow → Option ℕ
  time_of r = elim (dates.parse r.mobilisation_date) [ none ↦ none | some d ↦ some (dates.time d) ]

  -- The greatest of the times.
  unfoldable pub latest_time : List InvestmentRecordRow → ℕ
  latest_time [] = 0
  latest_time (r ∷ rs) =
      let rest = latest_time rs in
      elim (time_of r) [ none ↦ rest | some t ↦ if ltb t rest then rest else t ]

  abbrev pub is_at : ℕ → InvestmentRecordRow → Bool
  is_at t r = elim (time_of r) [ none ↦ false | some u ↦ u == t ]

  -- The first record at the time, or else the one that is given.
  unfoldable pub first_at : ℕ → InvestmentRecordRow → List InvestmentRecordRow → InvestmentRecordRow
  first_at t other [] = other
  first_at t other (r ∷ rs) = let rest = first_at t other rs in if is_at t r then r else rest

  -- The first of the records with the latest date; the first of all where its date is not readable.
  unfoldable pub last_record : InvestmentRecordRow → List InvestmentRecordRow → InvestmentRecordRow
  unfolding latest_time first_at
  last_record r rs = elim (time_of r) [
    | none ↦ r
    | some t ↦ first_at (latest_time (r ∷ rs)) r (r ∷ rs)
  ]

  latest-stuck :
      (best r : InvestmentRecordRow)
      → dates.parse best.mobilisation_date ≡ none
      → latest js dates (some best) r ≡ best
  unfolding latest
  latest-stuck best r h = elim (Option-cases (dates.parse r.mobilisation_date)) [
    | inl e ↦ ground (arith, e, h)
    | inr (d, e) ↦ ground (arith, e, h)
  ]

  latest_of-stuck :
      (best : InvestmentRecordRow) (rs : List InvestmentRecordRow)
      → dates.parse best.mobilisation_date ≡ none
      → latest_of best rs ≡ best
  unfolding latest_of
  latest_of-stuck best [] h = refl
  latest_of-stuck best (r ∷ rs) h = rw (latest-stuck best r h) (latest_of-stuck best rs h)

  any_at :
      (b : ℕ) (rs : List InvestmentRecordRow)
      → ltb b (latest_time rs) ≡ true
      → any (is_at (latest_time rs)) rs ≡ true
  unfolding latest_time
  any_at b [] h = ground arith
  any_at b (r ∷ rs) h = elim (Option-cases (dates.parse r.mobilisation_date)) [
    | inl e ↦ ground (arith, e, h, any_at b rs)
    | inr (d, e) ↦ ground (arith, e, h, any_at (dates.time d) rs)
  ]

  first_at-any :
      (t : ℕ) (one other : InvestmentRecordRow) (rs : List InvestmentRecordRow)
      → any (is_at t) rs ≡ true
      → first_at t one rs ≡ first_at t other rs
  unfolding first_at
  first_at-any t one other [] h = cc
  first_at-any t one other (r ∷ rs) h = ground (arith, first_at-any t one other rs)

  latest_of-first_at :
      (best : InvestmentRecordRow) (d : dates.Date) (rs : List InvestmentRecordRow)
      → dates.parse best.mobilisation_date ≡ some d
      → latest_of best rs
        ≡ (if ltb (dates.time d) (latest_time rs) then first_at (latest_time rs) best rs else best)
  unfolding latest_of latest_time first_at latest
  latest_of-first_at best d [] h = ground arith
  latest_of-first_at best d (r ∷ rs) h = elim (Option-cases (dates.parse r.mobilisation_date)) [
    | inl e ↦ ground (arith, e, h, latest_of-first_at best d rs h)
    | inr (c, e) ↦ ground (
      arith,
      e,
      h,
      latest_of-first_at best d rs h,
      latest_of-first_at r c rs e,
      any_at (dates.time c) rs,
      first_at-any (latest_time rs) best r rs,
    )
  ]

  -- The loop keeps the first of the records with the latest date.
  pub latest_of-eq :
      (r : InvestmentRecordRow) (rs : List InvestmentRecordRow) → latest_of r rs ≡ last_record r rs
  unfolding last_record latest_time first_at
  latest_of-eq r rs = elim (Option-cases (dates.parse r.mobilisation_date)) [
    | inl e ↦ ground (arith, e, latest_of-stuck r rs e)
    | inr (d, e) ↦ ground (arith, e, latest_of-first_at r d rs e, any_at (dates.time d) rs)
  ]
