-- ===== src/Analytics/Customers.antt =====
-- `customerPortfolio` and `customerPortfolioDetail`: the customers by what they have invested, in
-- pages. A page number is a whole number from 1 on, as the controller makes it.
pub mod Latest
pub mod Items
pub mod Pages
use wealth_track.Prelude.{
  ℕ, ◌+◌, ◌-◌, ◌*◌, ◌/◌, Bool, true, false, not, List, [], ◌∷◌, map, Option, none, some, or_else,
  filter, length, ltb, if◌then◌else◌,
}
use wealth_track.Prelude.Text.{Text, text_eq}
use wealth_track.Prelude.Assoc.{lookup, set}
use wealth_track.Rows.{InvestmentRecordRow, CustomerType}
use wealth_track.Analytics.{
  Numbers, Sql, Filter, no_filter, amount, total, list_confirmed_valid, is_inflow, is_rollover,
}
use wealth_track.Analytics.Tally.{add_amount, tenor_code}
use wealth_track.Analytics.Grouping.{group}
use wealth_track.Analytics.Sorting.{sort}
use wealth_track.Analytics.Periods.{Dates}

pub record CustomerAcc (Num : Type 0) : Type 0 where
  pub customer_name : Text
  pub customer_type : CustomerType
  pub total_investment : Num
  pub investment_count : ℕ
  pub inflow_value : Num
  pub rollover_value : Num
  pub last_record : Option InvestmentRecordRow
  pub tenor_exposure : List (Text × Num)

pub record CustomerItem (Num : Type 0) : Type 0 where
  pub customer_id : Text
  pub customer_name : Text
  pub customer_type : CustomerType
  pub total_investment : Num
  pub investment_count : ℕ
  pub inflow_value : Num
  pub rollover_value : Num
  pub last_investment_amount : Num
  pub last_investment_date : Text
  pub contribution_percentage : Num
  pub tenor_exposure : List (Text × Num)

pub record CustomerPage (Num : Type 0) : Type 0 where
  pub items : List (CustomerItem Num)
  pub page : ℕ
  pub page_size : ℕ
  pub total_items : ℕ
  pub total_pages : ℕ

-- `xs.slice(offset, offset + n)`
unfoldable pub drop : {A : Type 0} → ℕ → List A → List A
drop ℕ.zero xs = xs
drop (ℕ.suc n) [] = []
drop (ℕ.suc n) (x ∷ xs) = drop n xs

unfoldable pub take : {A : Type 0} → ℕ → List A → List A
take ℕ.zero xs = []
take (ℕ.suc n) [] = []
take (ℕ.suc n) (x ∷ xs) = x ∷ take n xs

abbrev pub slice : {A : Type 0} → ℕ → ℕ → List A → List A
slice offset n xs = take n (drop offset xs)

-- `map.get(customerId)` is keyed by the customer.
abbrev pub customer_key : InvestmentRecordRow → Option Text
customer_key r = some r.customer_id

module _ (js : Numbers) (dates : Dates) where
  open js use {Num, of_count, plus, times, over, greater}

  abbrev pub empty_customer : InvestmentRecordRow → CustomerAcc Num
  empty_customer r = record {
    customer_name = r.customer_name;
    customer_type = r.customer_type;
    total_investment = of_count 0;
    investment_count = 0;
    inflow_value = of_count 0;
    rollover_value = of_count 0;
    last_record = none;
    tenor_exposure = [];
  }

  -- `new Date(a) > new Date(b)`, which is false where one is NaN.
  abbrev later_date : Text → Text → Bool
  later_date a b = elim (dates.parse a) [
    | none ↦ false
    | some d ↦ elim (dates.parse b) [ none ↦ false | some e ↦ ltb (dates.time e) (dates.time d) ]
  ]

  unfoldable pub latest : Option InvestmentRecordRow → InvestmentRecordRow → InvestmentRecordRow
  latest none r = r
  latest (some best) r = if later_date r.mobilisation_date best.mobilisation_date then r else best

  unfoldable pub expose : InvestmentRecordRow → List (Text × Num) → List (Text × Num)
  expose r exposure =
      let code = tenor_code r.tenor_category in
      set code (plus (or_else (lookup code exposure) (of_count 0)) (amount js r)) exposure

  abbrev pub add_to_customer : InvestmentRecordRow → CustomerAcc Num → CustomerAcc Num
  add_to_customer r acc = record {
    customer_name = acc.customer_name;
    customer_type = acc.customer_type;
    total_investment = plus acc.total_investment (amount js r);
    investment_count = acc.investment_count + 1;
    inflow_value = add_amount js (is_inflow r.fund_type) r acc.inflow_value;
    rollover_value = add_amount js (is_rollover r.fund_type) r acc.rollover_value;
    last_record = some (latest acc.last_record r);
    tenor_exposure = expose r acc.tenor_exposure;
  }

  -- `x > 0 ? (part / x) * 100 : 0`
  unfoldable pub share : Num → Num → Num
  share part whole =
      if greater whole (of_count 0) then times (over part whole) (of_count 100) else of_count 0

  abbrev last_amount : Option InvestmentRecordRow → Num
  last_amount none = of_count 0
  last_amount (some r) = amount js r

  abbrev last_date : Option InvestmentRecordRow → Text
  last_date none = []
  last_date (some r) = r.mobilisation_date

  abbrev pub to_item : Num → Text × CustomerAcc Num → CustomerItem Num
  to_item whole (customer_id, acc) = record {
    customer_id = customer_id;
    customer_name = acc.customer_name;
    customer_type = acc.customer_type;
    total_investment = acc.total_investment;
    investment_count = acc.investment_count;
    inflow_value = acc.inflow_value;
    rollover_value = acc.rollover_value;
    last_investment_amount = last_amount acc.last_record;
    last_investment_date = last_date acc.last_record;
    contribution_percentage = share acc.total_investment whole;
    tenor_exposure = acc.tenor_exposure;
  }

  -- `allItems`
  unfoldable pub all_items : List InvestmentRecordRow → List (CustomerItem Num)
  all_items investments = map (to_item (total js investments)) (
      sort (λ a b. not (greater (b.1).total_investment (a.1).total_investment))
        (group customer_key empty_customer add_to_customer investments []))

  unfoldable pub customer_portfolio :
      Sql → ℕ → ℕ → Filter → List InvestmentRecordRow → CustomerPage Num
  unfolding all_items
  customer_portfolio sql page page_size filter_by table =
      let items = all_items (list_confirmed_valid sql filter_by table) in
      record {
        items = slice ((page - 1) * page_size) page_size items;
        page = page;
        page_size = page_size;
        total_items = length items;
        -- `Math.ceil(totalItems / pageSize)`
        total_pages = (length items + (page_size - 1)) / page_size;
      }

  pub record PortfolioDetail : Type 0 where
    pub customer_id : Text
    pub items : List InvestmentRecordRow

  unfoldable pub customer_portfolio_detail : Sql → Text → List InvestmentRecordRow → PortfolioDetail
  customer_portfolio_detail sql customer_id table = record {
    customer_id = customer_id;
    items =
        filter (λ r. text_eq r.customer_id customer_id) (list_confirmed_valid sql no_filter table);
  }
