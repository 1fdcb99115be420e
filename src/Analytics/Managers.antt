-- ===== src/Analytics/Managers.antt =====
-- `wealthManagers`: the relationship managers by the funds that they have raised.
pub mod Customers
pub mod Maps
pub mod Tops
pub mod Items
use wealth_track.Prelude.{
  ℕ, ◌+◌, Bool, true, false, not, ◌&&◌, List, [], ◌∷◌, map, Option, none, some, or_else, is_some,
  filter, length, ltb, if◌then◌else◌,
}
use mathlib.Core.Option
use wealth_track.Prelude.Text.{Text, codes, text_eq, includes, has_substring, to_lower_case}
use wealth_track.Prelude.Assoc.{lookup, set}
use wealth_track.Rows.{InvestmentRecordRow, CustomerType}
use wealth_track.Import.{truthy}
use wealth_track.Analytics.{
  Numbers, Sql, no_filter, amount, total, customer_ids, list_confirmed_valid, is_new, is_returning,
}
use wealth_track.Analytics.Tally.{add_amount, add_one}
use wealth_track.Analytics.Breakdown.{of_new, of_returning, of_inflow, of_rollover}
use wealth_track.Analytics.Aging.{
  FundsAgingBuckets, empty_aging_buckets, accumulate_aging_bucket, accumulate_all,
}
use wealth_track.Analytics.Grouping.{group}
use wealth_track.Analytics.Sorting.{sort}
use wealth_track.Analytics.Customers.{take}

pub record TopCustomer (Num : Type 0) : Type 0 where
  pub customer_name : Text
  pub total_investment : Num

pub record ManagerAcc (Num : Type 0) : Type 0 where
  pub investment_account_count : ℕ
  pub total_investment : Num
  pub customers : List (Text × CustomerType)
  pub inflow_value : Num
  pub rollover_value : Num
  pub cost_of_funds_sum : Num
  pub cost_of_funds_count : ℕ
  pub funds_aging : FundsAgingBuckets Num
  pub top_customers_map : List (Text × TopCustomer Num)

-- An item; the figures that the reply gives under two names stand once.
pub record ManagerItem (Num : Type 0) : Type 0 where
  pub relationship_manager : Text
  pub investment_account_count : ℕ
  pub total_investment : Num
  pub customer_count : ℕ
  pub new_customer_count : ℕ
  pub new_customer_value : Num
  pub returning_customer_count : ℕ
  pub returning_customer_value : Num
  pub inflow_value : Num
  pub rollover_value : Num
  pub average_investment_per_customer : Num
  pub funds_aging : FundsAgingBuckets Num
  pub top_customers : List (Text × TopCustomer Num)

pub record ManagerSummary (Num : Type 0) : Type 0 where
  pub manager_count : ℕ
  pub investment_account_count : ℕ
  pub total_aum : Num
  pub ntb_customer_count : ℕ
  pub ntb_volume : Num
  pub returning_customer_count : ℕ
  pub returning_customer_volume : Num
  pub funds_aging : FundsAgingBuckets Num

pub record ManagersReply (Num : Type 0) : Type 0 where
  pub summary : ManagerSummary Num
  pub items : List (ManagerItem Num)

-- `record.relationshipManager ?? 'Unassigned'`
abbrev pub manager_of : InvestmentRecordRow → Text
manager_of r = or_else r.relationship_manager (codes "Unassigned")

abbrev pub manager_key : InvestmentRecordRow → Option Text
manager_key r = some (manager_of r)

abbrev pub has_cost : InvestmentRecordRow → Bool
has_cost r = is_some r.cost_of_funds

-- `entries.filter(([, type]) => type === …).map(([id]) => id)`
unfoldable pub ids_where : (CustomerType → Bool) → List (Text × CustomerType) → List Text
ids_where p entries = map (λ e. e.0) (filter (λ e. p (e.1)) entries)

module _ (js : Numbers) where
  open js use {Num, of_count, number, plus, over, greater}

  abbrev pub empty_manager : InvestmentRecordRow → ManagerAcc Num
  empty_manager r = record {
    investment_account_count = 0;
    total_investment = of_count 0;
    customers = [];
    inflow_value = of_count 0;
    rollover_value = of_count 0;
    cost_of_funds_sum = of_count 0;
    cost_of_funds_count = 0;
    funds_aging = empty_aging_buckets js;
    top_customers_map = [];
  }

  abbrev top_total : Option (TopCustomer Num) → Num
  top_total none = of_count 0
  top_total (some t) = t.total_investment

  unfoldable pub add_top :
      InvestmentRecordRow → List (Text × TopCustomer Num) → List (Text × TopCustomer Num)
  add_top r tops =
      set r.customer_id
        (record {
          customer_name = r.customer_name;
          total_investment = plus (top_total (lookup r.customer_id tops)) (amount js r);
        })
        tops

  -- `if (record.costOfFunds !== null) sum += Number(record.costOfFunds)`
  unfoldable pub add_cost : InvestmentRecordRow → Num → Num
  add_cost r sum = elim r.cost_of_funds [ none ↦ sum | some cost ↦ plus sum (number cost) ]

  abbrev pub add_to_manager : InvestmentRecordRow → ManagerAcc Num → ManagerAcc Num
  add_to_manager r acc = record {
    investment_account_count = acc.investment_account_count + 1;
    total_investment = plus acc.total_investment (amount js r);
    customers = set r.customer_id r.customer_type acc.customers;
    inflow_value = add_amount js (of_inflow r) r acc.inflow_value;
    rollover_value = add_amount js (of_rollover r) r acc.rollover_value;
    cost_of_funds_sum = add_cost r acc.cost_of_funds_sum;
    cost_of_funds_count = add_one (has_cost r) acc.cost_of_funds_count;
    funds_aging = accumulate_aging_bucket js acc.funds_aging r;
    top_customers_map = add_top r acc.top_customers_map;
  }

  -- What the customers with the identifiers have invested with the manager.
  abbrev pub value_of_customers : List InvestmentRecordRow → Text → List Text → Num
  value_of_customers investments manager ids =
      total js
        (filter (λ r. text_eq (manager_of r) manager && includes ids r.customer_id) investments)

  unfoldable pub to_manager_item :
      List InvestmentRecordRow → Text × ManagerAcc Num → ManagerItem Num
  unfolding ids_where
  to_manager_item investments (manager, acc) =
      let new_ids = ids_where is_new acc.customers in
      let returning_ids = ids_where is_returning acc.customers in
      record {
        relationship_manager = manager;
        investment_account_count = acc.investment_account_count;
        total_investment = acc.total_investment;
        customer_count = length acc.customers;
        new_customer_count = length new_ids;
        new_customer_value = value_of_customers investments manager new_ids;
        returning_customer_count = length returning_ids;
        returning_customer_value = value_of_customers investments manager returning_ids;
        inflow_value = acc.inflow_value;
        rollover_value = acc.rollover_value;
        average_investment_per_customer =
            if ltb 0 (length acc.customers)
            then over acc.total_investment (of_count (length acc.customers))
            else of_count 0;
        funds_aging = acc.funds_aging;
        top_customers = take 5 (
            sort (λ a b. not (greater (b.1).total_investment (a.1).total_investment))
              acc.top_customers_map);
      }

  -- `!filter?.q || manager.toLowerCase().includes(filter.q.toLowerCase())`
  unfoldable pub is_asked_for : Option Text → Text → Bool
  is_asked_for q manager = elim (truthy q) [
    | none ↦ true
    | some text ↦ has_substring (to_lower_case text) (to_lower_case manager)
  ]

  abbrev pub by_manager : List InvestmentRecordRow → List (Text × ManagerAcc Num)
  by_manager investments = group manager_key empty_manager add_to_manager investments []

  unfoldable pub manager_items : Option Text → List InvestmentRecordRow → List (ManagerItem Num)
  unfolding is_asked_for
  manager_items q investments = map (to_manager_item investments) (
      sort (λ a b. not (greater (b.1).total_investment (a.1).total_investment))
        (filter (λ e. is_asked_for q (e.0)) (by_manager investments)))

  unfoldable pub wealth_managers : Sql → Option Text → List InvestmentRecordRow → ManagersReply Num
  unfolding manager_items
  wealth_managers sql q table =
      let investments = list_confirmed_valid sql no_filter table in
      record {
        summary = record {
          manager_count = length (by_manager investments);
          investment_account_count = length investments;
          total_aum = total js investments;
          ntb_customer_count = length (customer_ids (filter of_new investments));
          ntb_volume = total js (filter of_new investments);
          returning_customer_count = length (customer_ids (filter of_returning investments));
          returning_customer_volume = total js (filter of_returning investments);
          funds_aging = accumulate_all js (empty_aging_buckets js) investments;
        };
        items = manager_items q investments;
      }
