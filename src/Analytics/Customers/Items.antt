-- ===== src/Analytics/Customers/Items.antt =====
-- What the portfolio says of a customer is what the customer's records say.
use wealth_track.Prelude.{
  ◌+◌, ◌≡◌, refl, sym, ◌∙◌, ap, Bool, List, [], ◌∷◌, none, some, filter, length, or_else, arith,
  if◌then◌else◌,
}
use wealth_track.Prelude.Text.{Text, text_eq, text_eq_iff}
use wealth_track.Prelude.Assoc.{lookup, lookup-set_self, lookup-set_ne}
use wealth_track.Rows.{InvestmentRecordRow}
use wealth_track.Analytics.{Numbers, amount, total, total_from, is_inflow, is_rollover}
use wealth_track.Analytics.Tally.{tenor_code, add_amount, total_from-filter}
use wealth_track.Analytics.Grouping.{accumulate}
use wealth_track.Analytics.Entries.{items_of, filter-map-sort-group}
use wealth_track.Analytics.Periods.{Dates}
use wealth_track.Analytics.Customers.Latest.{latest_of, last_record, latest_of-eq}
use wealth_track.Analytics.Customers.{
  CustomerAcc, CustomerItem, customer_key, empty_customer, add_to_customer, latest, expose, share,
  to_item, all_items,
}

module _ (js : Numbers) (dates : Dates) where
  open js use {Num, of_count, plus, times, over, greater}

  unfoldable pub expose_all : List (Text × Num) → List InvestmentRecordRow → List (Text × Num)
  unfolding expose
  expose_all exposure [] = exposure
  expose_all exposure (r ∷ rs) = expose_all (expose js dates r exposure) rs

  abbrev funded : InvestmentRecordRow → Bool
  funded r = is_inflow r.fund_type

  abbrev rolled : InvestmentRecordRow → Bool
  rolled r = is_rollover r.fund_type

  -- The item of a customer, stated of the customer's records.
  abbrev pub item_of : Num → Text → List InvestmentRecordRow → List (CustomerItem Num)
  item_of whole id [] = []
  item_of whole id (r ∷ rs) =
      (record {
        customer_id = id;
        customer_name = r.customer_name;
        customer_type = r.customer_type;
        total_investment = total js (r ∷ rs);
        investment_count = length (r ∷ rs);
        inflow_value = total js (filter funded (r ∷ rs));
        rollover_value = total js (filter rolled (r ∷ rs));
        last_investment_amount = amount js (last_record js dates r rs);
        last_investment_date = (last_record js dates r rs).mobilisation_date;
        contribution_percentage =
            if greater whole (of_count 0)
            then times (over (total js (r ∷ rs)) whole) (of_count 100)
            else of_count 0;
        tenor_exposure = expose_all [] (r ∷ rs);
      })
      ∷ []

  -- An entry whose last record is `best`, with more records.
  grown : InvestmentRecordRow → CustomerAcc Num → List InvestmentRecordRow → CustomerAcc Num
  grown best acc rs = record {
    customer_name = acc.customer_name;
    customer_type = acc.customer_type;
    total_investment = total_from js acc.total_investment rs;
    investment_count = acc.investment_count + length rs;
    inflow_value = total_from js acc.inflow_value (filter funded rs);
    rollover_value = total_from js acc.rollover_value (filter rolled rs);
    last_record = some (latest_of js dates best rs);
    tenor_exposure = expose_all acc.tenor_exposure rs;
  }

  with_last : InvestmentRecordRow → CustomerAcc Num → CustomerAcc Num
  with_last best acc = record acc { last_record = some best }

  grown-cons :
      (best : InvestmentRecordRow) (acc : CustomerAcc Num) (r : InvestmentRecordRow)
      (rs : List InvestmentRecordRow)
      → grown (latest js dates (some best) r) (add_to_customer js dates r (with_last best acc)) rs
        ≡ grown best acc (r ∷ rs)
  unfolding grown with_last total_from latest_of expose_all
  grown-cons best acc r rs =
      rw
        (
          total_from-filter js funded acc.inflow_value r rs,
          total_from-filter js rolled acc.rollover_value r rs,
        )
        (ground arith)

  accumulate-grown :
      (best : InvestmentRecordRow) (acc : CustomerAcc Num) (rs : List InvestmentRecordRow)
      → accumulate customer_key
          (empty_customer js dates)
          (add_to_customer js dates)
          (some (with_last best acc))
          rs
        ≡ some (grown best acc rs)
  unfolding accumulate grown with_last total_from latest_of expose_all
  accumulate-grown best acc [] = ground arith
  accumulate-grown best acc (r ∷ rs) =
      accumulate-grown (latest js dates (some best) r)
        (add_to_customer js dates r (with_last best acc)) rs
      ∙ ap some (grown-cons best acc r rs)

  items-accumulate :
      (whole : Num) (id : Text) (rs : List InvestmentRecordRow)
      → items_of
          (to_item js dates whole)
          id
          (accumulate customer_key (empty_customer js dates) (add_to_customer js dates) none rs)
        ≡ item_of whole id rs
  unfolding accumulate grown with_last total_from expose_all latest share
  items-accumulate whole id [] = refl
  items-accumulate whole id (r ∷ rs) =
      ap (items_of (to_item js dates whole) id)
        (accumulate-grown r (add_to_customer js dates r (empty_customer js dates r)) rs)
      ∙ rw
          (
            total_from-filter js funded (of_count 0) r rs,
            total_from-filter js rolled (of_count 0) r rs,
            ← latest_of-eq js dates r rs,
          )
          (ground arith)

  -- The items of a customer in the portfolio.
  filter-all_items :
      (investments : List InvestmentRecordRow) (id : Text)
      → filter (λ x. text_eq x.customer_id id) (all_items js dates investments)
        ≡ item_of (total js investments) id (filter (λ r. text_eq r.customer_id id) investments)
  unfolding all_items
  filter-all_items investments id =
      filter-map-sort-group (to_item js dates (total js investments)) (λ x. x.customer_id)
        (λ e. refl) customer_key (empty_customer js dates) (add_to_customer js dates) _ investments
        id
      ∙ items-accumulate (total js investments) id _

  abbrev pub of_tenor_code : Text → InvestmentRecordRow → Bool
  of_tenor_code code r = text_eq (tenor_code r.tenor_category) code

  abbrev pub exposure_to : Text → List (Text × Num) → Num
  exposure_to code exposure = or_else (lookup code exposure) (of_count 0)

  exposure_to-expose :
      (exposure : List (Text × Num)) (r : InvestmentRecordRow) (code : Text)
      → exposure_to code (expose js dates r exposure)
        ≡ add_amount js (of_tenor_code code r) r (exposure_to code exposure)
  unfolding expose add_amount
  exposure_to-expose exposure r code = ground (
    arith,
    text_eq_iff (tenor_code r.tenor_category) code,
    lookup-set_self code (plus (exposure_to code exposure) (amount js r)) exposure,
    lookup-set_ne (tenor_code r.tenor_category) code
        (plus (exposure_to (tenor_code r.tenor_category) exposure) (amount js r)) exposure,
  )

  -- The exposure of a customer to a tenor.
  exposure_to-expose_all :
      (exposure : List (Text × Num)) (rs : List InvestmentRecordRow) (code : Text)
      → exposure_to code (expose_all exposure rs)
        ≡ total_from js (exposure_to code exposure) (filter (of_tenor_code code) rs)
  unfolding expose_all total_from
  exposure_to-expose_all exposure [] code = refl
  exposure_to-expose_all exposure (r ∷ rs) code =
      exposure_to-expose_all (expose js dates r exposure) rs code
      ∙ ap (λ x. total_from js x (filter (of_tenor_code code) rs))
          (exposure_to-expose exposure r code)
      ∙ sym (total_from-filter js (of_tenor_code code) (exposure_to code exposure) r rs)

  -- In the portfolio of any investments, a customer with investments among them stands exactly once,
  -- and any other nowhere. The item has the sum and the number of the customer's investments, the
  -- sums of the inflows and of the rollovers among them, the name and the type that the first of them
  -- gives, the amount and the date of the first of those with the latest readable date, or of the first
  -- of all where that has no readable date, a hundred times the quotient of the sum and the sum of all
  -- investments, if that is positive, and as its exposure to a tenor the sum of those of that tenor.
  -- Sums run in the order of the investments.
  pub all_items_lem :
      (investments : List InvestmentRecordRow) (id code : Text)
      → (filter (λ x. text_eq x.customer_id id) (all_items js dates investments)
          ≡ item_of (total js investments) id (filter (λ r. text_eq r.customer_id id) investments))
        × (exposure_to code (expose_all [] (filter (λ r. text_eq r.customer_id id) investments))
            ≡ total js
                (filter (of_tenor_code code) (filter (λ r. text_eq r.customer_id id) investments)))
  unfolding lookup
  all_items_lem investments id code =
      (filter-all_items investments id, exposure_to-expose_all [] _ code)
