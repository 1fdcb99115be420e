-- ===== src/Analytics/Breakdown.antt =====
-- `buildBreakdownPoints`: the investments of each period by kind of customer, of fund and of tenor.
use wealth_track.Prelude.{
  ℕ, Bool, ◌+◌, ◌≡◌, refl, ◌∙◌, ap, List, [], ◌∷◌, map, some, none, filter, length,
}
use wealth_track.Prelude.Text.{Text, text_eq}
use wealth_track.Rows.{
  InvestmentRecordRow, TenorCategory, short_term, mid_short_term, medium_term, long_term,
}
use wealth_track.Analytics.{
  Numbers, total, total_from, ids_from, customer_ids, is_new, is_returning, is_inflow, is_rollover,
}
use wealth_track.Analytics.Tally.{
  same_tenor, add_amount, add_customer, total_from-filter, ids_from-filter,
}
use wealth_track.Analytics.Grouping.{group, accumulate, of_key}
use wealth_track.Analytics.Sorting.{sort}
use wealth_track.Analytics.Entries.{items_of, filter-map-sort-group}
use wealth_track.Analytics.Periods.{Dates}
use wealth_track.Analytics.Series.{period_of}

pub record BreakdownBucket (Num : Type 0) : Type 0 where
  pub new_customer_investment : Num
  pub returning_customer_investment : Num
  pub inflow_investment : Num
  pub rollover_investment : Num
  pub short_term_investment : Num
  pub mid_short_term_investment : Num
  pub medium_term_investment : Num
  pub long_term_investment : Num
  pub new_customers : List Text
  pub returning_customers : List Text

pub record BreakdownPoint (Num : Type 0) : Type 0 where
  pub period : Text
  pub new_customer_investment : Num
  pub returning_customer_investment : Num
  pub inflow_investment : Num
  pub rollover_investment : Num
  pub short_term_investment : Num
  pub mid_short_term_investment : Num
  pub medium_term_investment : Num
  pub long_term_investment : Num
  pub new_customer_count : ℕ
  pub returning_customer_count : ℕ
  pub unique_customers : ℕ

abbrev pub of_new : InvestmentRecordRow → Bool
of_new r = is_new r.customer_type

abbrev pub of_returning : InvestmentRecordRow → Bool
of_returning r = is_returning r.customer_type

abbrev pub of_inflow : InvestmentRecordRow → Bool
of_inflow r = is_inflow r.fund_type

abbrev pub of_rollover : InvestmentRecordRow → Bool
of_rollover r = is_rollover r.fund_type

abbrev pub of_tenor : TenorCategory → InvestmentRecordRow → Bool
of_tenor category r = same_tenor r.tenor_category category

module _ (js : Numbers) (dates : Dates) (locale_le : Text → Text → Bool)
    (key_fn : dates.Date → Text) where
  open js use {Num, of_count}

  abbrev empty_breakdown : InvestmentRecordRow → BreakdownBucket Num
  empty_breakdown r = record {
    new_customer_investment = of_count 0;
    returning_customer_investment = of_count 0;
    inflow_investment = of_count 0;
    rollover_investment = of_count 0;
    short_term_investment = of_count 0;
    mid_short_term_investment = of_count 0;
    medium_term_investment = of_count 0;
    long_term_investment = of_count 0;
    new_customers = [];
    returning_customers = [];
  }

  -- Each amount is added under the test of its field.
  abbrev add_to_breakdown : InvestmentRecordRow → BreakdownBucket Num → BreakdownBucket Num
  add_to_breakdown r b = record {
    new_customer_investment = add_amount js (of_new r) r b.new_customer_investment;
    returning_customer_investment =
        add_amount js (of_returning r) r b.returning_customer_investment;
    inflow_investment = add_amount js (of_inflow r) r b.inflow_investment;
    rollover_investment = add_amount js (of_rollover r) r b.rollover_investment;
    short_term_investment = add_amount js (of_tenor short_term r) r b.short_term_investment;
    mid_short_term_investment =
        add_amount js (of_tenor mid_short_term r) r b.mid_short_term_investment;
    medium_term_investment = add_amount js (of_tenor medium_term r) r b.medium_term_investment;
    long_term_investment = add_amount js (of_tenor long_term r) r b.long_term_investment;
    new_customers = add_customer (of_new r) r b.new_customers;
    returning_customers = add_customer (of_returning r) r b.returning_customers;
  }

  abbrev to_breakdown_point : Text × BreakdownBucket Num → BreakdownPoint Num
  to_breakdown_point (p, b) = record {
    period = p;
    new_customer_investment = b.new_customer_investment;
    returning_customer_investment = b.returning_customer_investment;
    inflow_investment = b.inflow_investment;
    rollover_investment = b.rollover_investment;
    short_term_investment = b.short_term_investment;
    mid_short_term_investment = b.mid_short_term_investment;
    medium_term_investment = b.medium_term_investment;
    long_term_investment = b.long_term_investment;
    new_customer_count = length b.new_customers;
    returning_customer_count = length b.returning_customers;
    unique_customers = length b.new_customers + length b.returning_customers;
  }

  unfoldable pub build_breakdown_points : List InvestmentRecordRow → List (BreakdownPoint Num)
  build_breakdown_points investments = map to_breakdown_point (
      sort (λ a b. locale_le (a.0) (b.0))
        (group (period_of dates key_fn) empty_breakdown add_to_breakdown investments []))

  -- The investments of a period, in their order.
  abbrev pub in_breakdown_period : Text → List InvestmentRecordRow → List InvestmentRecordRow
  in_breakdown_period p =
      filter (of_key (period_of dates key_fn) empty_breakdown add_to_breakdown p)

  -- The point of a period, stated of its investments.
  abbrev pub breakdown_of : Text → List InvestmentRecordRow → List (BreakdownPoint Num)
  breakdown_of p [] = []
  breakdown_of p (r ∷ rs) =
      (record {
        period = p;
        new_customer_investment = total js (filter of_new (r ∷ rs));
        returning_customer_investment = total js (filter of_returning (r ∷ rs));
        inflow_investment = total js (filter of_inflow (r ∷ rs));
        rollover_investment = total js (filter of_rollover (r ∷ rs));
        short_term_investment = total js (filter (of_tenor short_term) (r ∷ rs));
        mid_short_term_investment = total js (filter (of_tenor mid_short_term) (r ∷ rs));
        medium_term_investment = total js (filter (of_tenor medium_term) (r ∷ rs));
        long_term_investment = total js (filter (of_tenor long_term) (r ∷ rs));
        new_customer_count = length (customer_ids (filter of_new (r ∷ rs)));
        returning_customer_count = length (customer_ids (filter of_returning (r ∷ rs)));
        unique_customers =
            length (customer_ids (filter of_new (r ∷ rs)))
            + length (customer_ids (filter of_returning (r ∷ rs)));
      })
      ∷ []

  -- What a bucket becomes with more records.
  grown : BreakdownBucket Num → List InvestmentRecordRow → BreakdownBucket Num
  grown b rs = record {
    new_customer_investment = total_from js b.new_customer_investment (filter of_new rs);
    returning_customer_investment =
        total_from js b.returning_customer_investment (filter of_returning rs);
    inflow_investment = total_from js b.inflow_investment (filter of_inflow rs);
    rollover_investment = total_from js b.rollover_investment (filter of_rollover rs);
    short_term_investment = total_from js b.short_term_investment (filter (of_tenor short_term) rs);
    mid_short_term_investment =
        total_from js b.mid_short_term_investment (filter (of_tenor mid_short_term) rs);
    medium_term_investment =
        total_from js b.medium_term_investment (filter (of_tenor medium_term) rs);
    long_term_investment = total_from js b.long_term_investment (filter (of_tenor long_term) rs);
    new_customers = ids_from b.new_customers (filter of_new rs);
    returning_customers = ids_from b.returning_customers (filter of_returning rs);
  }

  grown-cons :
      (b : BreakdownBucket Num) (r : InvestmentRecordRow) (rs : List InvestmentRecordRow)
      → grown (add_to_breakdown r b) rs ≡ grown b (r ∷ rs)
  unfolding grown
  grown-cons b r rs =
      rw
        (
          total_from-filter js of_new b.new_customer_investment r rs,
          total_from-filter js of_returning b.returning_customer_investment r rs,
          total_from-filter js of_inflow b.inflow_investment r rs,
          total_from-filter js of_rollover b.rollover_investment r rs,
          total_from-filter js (of_tenor short_term) b.short_term_investment r rs,
          total_from-filter js (of_tenor mid_short_term) b.mid_short_term_investment r rs,
          total_from-filter js (of_tenor medium_term) b.medium_term_investment r rs,
          total_from-filter js (of_tenor long_term) b.long_term_investment r rs,
          ids_from-filter of_new b.new_customers r rs,
          ids_from-filter of_returning b.returning_customers r rs,
        )
        refl

  accumulate-grown :
      (b : BreakdownBucket Num) (rs : List InvestmentRecordRow)
      → accumulate (period_of dates key_fn) empty_breakdown add_to_breakdown (some b) rs
        ≡ some (grown b rs)
  unfolding accumulate grown total_from ids_from
  accumulate-grown b [] = refl
  accumulate-grown b (r ∷ rs) =
      accumulate-grown (add_to_breakdown r b) rs ∙ ap some (grown-cons b r rs)

  items-breakdown :
      (p : Text) (rs : List InvestmentRecordRow)
      → items_of to_breakdown_point p
          (accumulate (period_of dates key_fn) empty_breakdown add_to_breakdown none rs)
        ≡ breakdown_of p rs
  unfolding accumulate grown
  items-breakdown p [] = refl
  items-breakdown p (r ∷ rs) = ap (items_of to_breakdown_point p) (
      accumulate-grown (add_to_breakdown r (empty_breakdown r)) rs
      ∙ ap some (grown-cons (empty_breakdown r) r rs))

  -- A breakdown has no point of a period in which no investment with a readable date falls, and
  -- exactly one of any other period. Each sum of that point is the sum of the investments of the
  -- period that are of its kind of customer, of fund or of tenor, added up from the first to the
  -- last. Its unique customers are the different customers with new investments and the different
  -- ones with returning investments added together, so a customer with both is counted twice.
  pub filter-build_breakdown_points :
      (investments : List InvestmentRecordRow) (p : Text)
      → filter (λ x. text_eq x.period p) (build_breakdown_points investments)
        ≡ breakdown_of p (in_breakdown_period p investments)
  unfolding build_breakdown_points
  filter-build_breakdown_points investments p =
      filter-map-sort-group to_breakdown_point (λ x. x.period) (λ e. refl) (period_of dates key_fn)
        empty_breakdown add_to_breakdown _ investments p
      ∙ items-breakdown p (in_breakdown_period p investments)
